-- ===== src/Tests/Requests.antt =====
-- Requests of src/ppb_url_request_info.c in a table with a request and a file, and the body of a
-- response.
use freshplayerplugin.Base.{ℕ, ◌≡◌, refl, true, false, none, some, List, [], ◌∷◌, ◌++◌, pos, codes}
use freshplayerplugin.Base.Assoc.{lookup}
use freshplayerplugin.Resource.{Res, Registry, find}
use freshplayerplugin.Resource.Find.{new_res, more}
use freshplayerplugin.Var.{VarTable, string, blank}
use freshplayerplugin.Stream.{ReadTask, destroy_body}
use freshplayerplugin.Stream.Order.{IsServed}
use freshplayerplugin.Stream.Serving.Steps.{
  Step, writes, reads, streamed, asked_for, run, fresh, run-IsServed,
}
use freshplayerplugin.UrlRequest.{PostItem, Request, zeroed_request, init_request, request_type}
use freshplayerplugin.UrlRequest.PostData.{post_data_duplicate, post_data_free}
use freshplayerplugin.UrlRequest.PostData.Balance.{
  times, slices, nonempty_items, post_data_free-duplicate,
}

abbrev request_1 : Res Request
request_1 = new_res (init_request zeroed_request) request_type 1 1

-- The resource 2 is the one that the items refer to.
abbrev table : Registry Request
table = record {
  res_tbl = (1, request_1) ∷ (2, new_res zeroed_request 14 1 2) ∷ [];
  res_tbl_next = 3;
  destructors = none;
}

abbrev texts : VarTable
texts = record {
  var_ht = (1, record (blank (string 1)) { str = codes "  http://example.com" }) ∷ [];
  var_id = 1;
  deallocated = [];
}

abbrev slice : PostItem
slice = record {
  content = [];
  file_ref = 2;
  start_offset = pos 0;
  number_of_bytes = pos 10;
  expected_time = 0;
}

abbrev nothing : PostItem
nothing = record slice { file_ref = 0 }

abbrev body : List PostItem
body = slice ∷ nothing ∷ slice ∷ []

post_data_free-duplicate_example :
    let (copy, g1) = post_data_duplicate (some body) table in
    (copy ≡ some (nonempty_items body))
    × (find 2 g1 ≡ times (slices 2 body) more (find 2 table))
    × (find 2 (post_data_free copy g1) ≡ find 2 table)
unfolding lookup
post_data_free-duplicate_example = post_data_free-duplicate body table 2 refl

abbrev reader : ℕ → ReadTask
reader n = record { bytes_to_read = n; ccb = 7; ccb_ml = 1 }

abbrev steps : List Step
steps =
    reads (reader 3) false
    ∷ writes (codes "ab")
    ∷ reads (reader 9) true
    ∷ reads (reader 1) false
    ∷ writes (codes "c")
    ∷ []

run-IsServed_example :
    let (l, ds) = run [] steps fresh in
    let (l', late) = destroy_body l in
    IsServed (streamed steps) (asked_for steps) ds l
    × IsServed (streamed steps) (asked_for steps) (ds ++ late) l'
    × (l'.read_tasks ≡ [])
run-IsServed_example = run-IsServed steps

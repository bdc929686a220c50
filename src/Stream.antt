-- ===== src/Stream.antt =====
-- The response body of a URL loader: ppb_url_loader_read_response_body of src/ppb_url_loader.c, and
-- NPP_Write and NPP_DestroyStream of src/np_functions.c, which the browser calls. Seeking, reading
-- and writing the temporary file succeed, and numbers of bytes are not negative. The number that
-- NPP_Write answers, and streams without a loader, are left out.
pub mod Order
pub mod Serving
use freshplayerplugin.Base.{
  ℕ, ◌+◌, ◌-◌, Bool, true, false, not, ◌&&◌, Option, none, some, List, [], ◌∷◌, ◌++◌, ◌==◌, ltb,
  if◌then◌else◌, Bytes, length, take, drop, replicate, is_some,
}
use freshplayerplugin.Resource.{Registry}
use freshplayerplugin.Resource.Access.{change}

-- `struct url_loader_read_task_s`; the buffer is where the delivered bytes go.
pub record ReadTask : Type 0 where
  pub bytes_to_read : ℕ
  pub ccb : ℕ
  pub ccb_ml : ℕ

-- The fields of `struct pp_url_loader_s` that the functions use; the file is `none` if `fd` is -1.
pub record Loader : Type 0 where
  pub file : Option Bytes
  pub read_pos : ℕ
  pub finished_loading : Bool
  pub redirect_url : Option Bytes
  pub read_tasks : List ReadTask

-- A callback that is posted, with the bytes that were read; `none` is PP_ERROR_FAILED.
pub record Delivery : Type 0 where
  pub task : ReadTask
  pub content : Option Bytes

-- What a call of read_response_body returns.
pub data ReadResult : Type 0 where
  bad_resource failed pending : ReadResult
  returned : Bytes → ReadResult

-- the callbacks that are posted, and the result
abbrev pub Answer : Type 0
Answer = List Delivery × ReadResult

abbrev pub loader_type : ℕ
loader_type = 1

-- `lseek`, and `read` or `write`; a gap is filled with zeros
unfoldable pub read_at : ℕ → ℕ → Bytes → Bytes
read_at pos n file = take n (drop pos file)

unfoldable pub write_at : ℕ → Bytes → Bytes → Bytes
write_at pos buffer file =
    take pos file
    ++ (replicate (pos - length file) 0 ++ (buffer ++ drop (pos + length buffer) file))

abbrev pub schedule : ReadTask → Loader → Loader
schedule rt l = record l { read_tasks = l.read_tasks ++ (rt ∷ []) }

-- a read with no other waiting
abbrev pub read_now : ReadTask → Bool → Bytes → Loader → Loader × Answer
read_now rt optional b l =
    if length b == 0 && not l.finished_loading then (schedule rt l, ([], pending)) else (
      record l { read_pos = l.read_pos + length b },
      if optional then ([], returned b) else (record { task = rt; content = some b } ∷ [], pending),
    )

-- with the file, and with the tasks that wait already
abbrev pub read_found : ReadTask → Bool → Loader → Option Bytes → List ReadTask → Loader × Answer
read_found rt optional l none ts = (l, ([], failed))
read_found rt optional l (some f) [] =
    read_now rt optional (read_at l.read_pos rt.bytes_to_read f) l
read_found rt optional l (some f) (t ∷ ts) = (schedule rt l, ([], pending))

-- The work on an acquired loader. `optional` is the flag of the callback.
unfoldable pub read_body : ReadTask → Bool → Loader → Loader × Answer
unfolding read_at
read_body rt optional l = read_found rt optional l l.file l.read_tasks

unfoldable pub read_response_body :
    ℕ → ReadTask → Bool → Registry Loader → Option (Registry Loader × Answer)
unfolding change read_body
read_response_body h rt optional g =
    change loader_type h g ([], bad_resource) (λ l. (read_body rt optional l).0)
      (λ l. (read_body rt optional l).1)

-- The first waiting task, after a write; it waits on if nothing can be read.
abbrev pub serve_first : Bytes → Loader → List ReadTask → Loader × List Delivery
serve_first f l [] = (l, [])
serve_first f l (rt ∷ ts) =
    let b = read_at l.read_pos rt.bytes_to_read f in
    if length b == 0 then (l, []) else (
      record l { read_pos = l.read_pos + length b; read_tasks = ts },
      record { task = rt; content = some b } ∷ [],
    )

abbrev pub write_found : ℕ → Bytes → Loader → Option Bytes → Loader × List Delivery
write_found offset buffer l none = (l, [])
write_found offset buffer l (some f) =
    if length buffer == 0
    then (l, [])
    else let f' = write_at offset buffer f in
      serve_first f' (record l { file = some f' }) l.read_tasks

unfoldable pub write_body : ℕ → Bytes → Loader → Loader × List Delivery
unfolding read_at write_at
write_body offset buffer l = write_found offset buffer l l.file

unfoldable pub np_write : ℕ → ℕ → Bytes → Registry Loader → Option (Registry Loader × List Delivery)
unfolding change write_body
np_write h offset buffer g =
    change loader_type h g [] (λ l. (write_body offset buffer l).0)
      (λ l. (write_body offset buffer l).1)

-- what a task reads of a file that may be closed
abbrev pub read_open : ℕ → ℕ → Option Bytes → Option Bytes
read_open pos n none = none
read_open pos n (some f) = some (read_at pos n f)

abbrev pub advance : ℕ → Option Bytes → ℕ
advance pos none = pos
advance pos (some b) = pos + length b

-- The loop of NPP_DestroyStream over the waiting tasks, with no other thread in between.
unfoldable pub serve_all : List ReadTask → Loader → Loader × List Delivery
unfolding read_at
serve_all [] l = (record l { read_tasks = [] }, [])
serve_all (rt ∷ ts) l =
    let b = read_open l.read_pos rt.bytes_to_read l.file in
    let rest = serve_all ts (record l { read_pos = advance l.read_pos b }) in
    (rest.0, record { task = rt; content = b } ∷ rest.1)

unfoldable pub destroy_body : Loader → Loader × List Delivery
unfolding serve_all
destroy_body l =
    if is_some l.redirect_url
    then (l, [])
    else serve_all l.read_tasks (record l { finished_loading = true })

-- The whole of NPP_DestroyStream but for the callback at the end of streaming to a file.
unfoldable pub np_destroy_stream : ℕ → Registry Loader → Option (Registry Loader × List Delivery)
unfolding change destroy_body
np_destroy_stream h g =
    change loader_type h g [] (λ l. (destroy_body l).0) (λ l. (destroy_body l).1)

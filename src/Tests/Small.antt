-- ===== src/Tests/Small.antt =====
-- A URL of src/ppb_url_util.c.
use freshplayerplugin.Base.{[], ◌∷◌, pos, negsuc, Bytes, codes}
use freshplayerplugin.Var.{string, VarTable, blank}
use freshplayerplugin.Uri.Merge.{Component, Components}
use freshplayerplugin.UrlUtil.{Location}

abbrev pub absent : Component
absent = record { begin = 0; len = negsuc 0 }

-- A parser for which every string is a path.
abbrev pub all_path : Bytes → Components
all_path s = record {
  scheme = absent;
  username = absent;
  password = absent;
  host = absent;
  port = absent;
  path = record { begin = 0; len = pos 3 };
  query = absent;
  fragment = absent;
}

abbrev texts : VarTable
texts = record {
  var_ht =
      (1, record (blank (string 1)) { str = codes "/a/" })
      ∷ (2, record (blank (string 2)) { str = codes "b/c" })
      ∷ [];
  var_id = 2;
  deallocated = [];
}

abbrev pub page : Location
page = record { document_base_url = string 1; document_url = string 1; instance_url = string 1 }

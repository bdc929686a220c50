-- ===== src/Uri/Merge.antt =====
-- `uri_parser_merge_uris` of src/uri_parser/uri_parser.c. The automaton that parses a URI is made
-- from a grammar by the build: it is a parameter, a function from a string to its components.
pub mod Paths
use freshplayerplugin.Base.{
  ℕ, zero, suc, ◌+◌, ◌-◌, Bool, true, false, not, ◌&&◌, ◌||◌, List, [], ◌∷◌, ◌++◌, reverse, ◌==◌,
  ltb, if◌then◌else◌, ℤ, pos, negsuc, Bytes, codes, equal, length, take, drop,
}
use freshplayerplugin.Uri.Dots.{remove_dot_segments}

-- `struct PP_URLComponent_Dev`: absent is begin 0 and length -1.
pub record Component : Type 0 where
  pub begin : ℕ
  pub len : ℤ

pub record Components : Type 0 where
  pub scheme : Component
  pub username : Component
  pub password : Component
  pub host : Component
  pub port : Component
  pub path : Component
  pub query : Component
  pub fragment : Component

-- `len >= 0`, `len > 0`, and the length as `extract_component` takes it
abbrev pub present : Component → Bool
present c = elim c.len [ pos n ↦ true | negsuc n ↦ false ]

abbrev pub nonempty : Component → Bool
nonempty c = elim c.len [ pos n ↦ ltb 0 n | negsuc n ↦ false ]

abbrev pub extent : Component → ℕ
extent c = elim c.len [ pos n ↦ n | negsuc n ↦ 0 ]

abbrev is_minus_one : ℤ → Bool
is_minus_one (pos n) = false
is_minus_one (negsuc zero) = true
is_minus_one (negsuc (suc n)) = false

unfoldable pub urlcomponent_is_empty : Component → Bool
urlcomponent_is_empty c = c.begin == 0 && is_minus_one c.len

unfoldable pub authority_is_not_empty : Components → Bool
unfolding urlcomponent_is_empty
authority_is_not_empty c =
    not (urlcomponent_is_empty c.username)
    || not (urlcomponent_is_empty c.password)
    || not (urlcomponent_is_empty c.host)
    || not (urlcomponent_is_empty c.port)

unfoldable pub extract_component : Bytes → Component → Bytes
extract_component s c = take (extent c) (drop c.begin s)

-- The later assignments win: from the first part that is there to the end of the last one; with
-- none, `end - begin` is -1, and nothing is extracted.
unfoldable pub extract_authority : Bytes → Components → Bytes
extract_authority s c =
    let b0 = if present c.port then c.port.begin else 0 in
    let b1 = if present c.host then c.host.begin else b0 in
    let b2 = if present c.password then c.password.begin else b1 in
    let b3 = if present c.username then c.username.begin else b2 in
    let e0 = if present c.username then c.username.begin + extent c.username else 0 in
    let e1 = if present c.password then c.password.begin + extent c.password else e0 in
    let e2 = if present c.host then c.host.begin + extent c.host else e1 in
    let e3 = if present c.port then c.port.begin + extent c.port else e2 in
    take (e3 - b3) (drop b3 s)

-- `while (len > 0 && base_path.data[len - 1] != '/') len --;`, last byte first
unfoldable pub drop_name : Bytes → Bytes
drop_name [] = []
drop_name (c ∷ d) = let further = drop_name d in if not (c == b'/') then further else c ∷ d

unfoldable pub merge_path : Bytes → Components → Bytes → Components → Bytes
unfolding extract_component drop_name
merge_path base_uri base_c rel_uri rel_c =
    let rel_path = extract_component rel_uri rel_c.path in
    if nonempty base_c.host && not (nonempty base_c.path)
    then b'/' ∷ rel_path
    else reverse (drop_name (reverse (extract_component base_uri base_c.path))) ++ rel_path

-- `while (rel_uri && *rel_uri == '/') rel_uri ++;`
unfoldable pub skip_slashes : Bytes → Bytes
skip_slashes [] = []
skip_slashes (c ∷ cs) = let rest = skip_slashes cs in if c == b'/' then rest else c ∷ cs

unfoldable pub scheme_is_file : Bytes → Components → Bool
scheme_is_file base_uri c =
    nonempty c.scheme
    && equal (take 4 (drop c.scheme.begin base_uri)) (codes "file")
    && extent c.scheme == 4

-- `rel_uri[rel_c.path.begin] == '/'`
abbrev starts_with_slash : Bytes → Bool
starts_with_slash [] = false
starts_with_slash (c ∷ cs) = c == b'/'

-- The parts of the result, before they are printed.
pub record Target : Type 0 where
  pub scheme : Bytes
  pub authority : Bytes
  pub path : Bytes
  pub query : Bytes
  pub fragment : Bytes

unfoldable pub target : Bytes → Components → Bytes → Components → Target
target base_uri base_c rel_uri rel_c =
    let rel_path = extract_component rel_uri rel_c.path in
    let rel_query = extract_component rel_uri rel_c.query in
    let fragment = extract_component rel_uri rel_c.fragment in
    let base_scheme = extract_component base_uri base_c.scheme in
    if not (urlcomponent_is_empty rel_c.scheme)
    then record {
      scheme = extract_component rel_uri rel_c.scheme;
      authority = extract_authority rel_uri rel_c;
      path = remove_dot_segments rel_path;
      query = rel_query;
      fragment = fragment;
    }
    else if authority_is_not_empty rel_c
    then record {
      scheme = base_scheme;
      authority = extract_authority rel_uri rel_c;
      path = remove_dot_segments rel_path;
      query = rel_query;
      fragment = fragment;
    }
    else if not (nonempty rel_c.path)
    then record {
      scheme = base_scheme;
      authority = extract_authority base_uri base_c;
      path = extract_component base_uri base_c.path;
      query =
          if not (urlcomponent_is_empty rel_c.query)
          then rel_query
          else extract_component base_uri base_c.query;
      fragment = fragment;
    }
    else record {
      scheme = base_scheme;
      authority = extract_authority base_uri base_c;
      path = remove_dot_segments (
          if starts_with_slash (drop rel_c.path.begin rel_uri)
          then rel_path
          else merge_path base_uri base_c rel_uri rel_c);
      query = rel_query;
      fragment = fragment;
    }

-- the final `g_strdup_printf`
abbrev pub is_empty : Bytes → Bool
is_empty [] = true
is_empty (c ∷ cs) = false

unfoldable pub recompose : Bool → Target → Bytes
recompose file t =
    t.scheme
    ++ ((if is_empty t.scheme then [] else codes ":")
        ++ ((if not (is_empty t.authority) || file then codes "//" else [])
            ++ (t.authority
                ++ (t.path
                    ++ ((if is_empty t.query then [] else codes "?")
                        ++ (t.query
                            ++ ((if is_empty t.fragment then [] else codes "#") ++ t.fragment)))))))

unfoldable pub merge_uris : (Bytes → Components) → Bytes → Bytes → Bytes
unfolding scheme_is_file skip_slashes target recompose extract_component extract_authority
    merge_path authority_is_not_empty urlcomponent_is_empty remove_dot_segments
merge_uris parse base_uri rel_uri =
    let base_c = parse base_uri in
    let file = scheme_is_file base_uri base_c in
    let rel = if file then skip_slashes rel_uri else rel_uri in
    recompose file (target base_uri base_c rel (parse rel))

-- ===== src/Uri/Dots.antt =====
-- `remove_dot_segments` of src/uri_parser/uri_parser.c. The working copy up to `pdst` is kept
-- last byte first, so that `res.data[pdst++] = c` is a cons.
pub mod Segments
mod Reading
pub mod Loop
pub mod Length
use freshplayerplugin.Base.{
  ℕ, zero, suc, ◌+◌, Bool, true, false, ◌&&◌, ◌||◌, List, [], ◌∷◌, reverse, ◌==◌, if◌then◌else◌,
  Bytes,
}

-- The variables of the loop.
pub record Dots : Type 0 where
  pub dst : Bytes
  pub dot_cnt : ℕ
  pub after_slash : Bool

-- one round of the loop on `k`: back to a slash, and over it
unfoldable pub back : Bytes → Bytes
back [] = []
back (c ∷ d) = let further = back d in if c == b'/' then d else further

unfoldable pub backs : ℕ → Bytes → Bytes
unfolding back
backs zero d = d
backs (suc k) d = backs k (back d)

abbrev pub is_dots : ℕ → Bool
is_dots n = n == 1 || n == 2

unfoldable pub step : Dots → ℕ → Dots
unfolding backs
step s c =
    if c == b'/'
    then record {
      dst = b'/' ∷ (if is_dots s.dot_cnt then backs s.dot_cnt s.dst else s.dst);
      dot_cnt = 0;
      after_slash = true;
    }
    else if c == b'.'
    then record s {
      dst = b'.' ∷ s.dst;
      dot_cnt = if s.after_slash then s.dot_cnt + 1 else s.dot_cnt;
    }
    else record { dst = c ∷ s.dst; dot_cnt = 0; after_slash = false }

unfoldable pub steps : Dots → Bytes → Dots
unfolding step
steps s [] = s
steps s (c ∷ cs) = steps (step s c) cs

abbrev pub start : Dots
start = record { dst = []; dot_cnt = 0; after_slash = true }

-- trailing "/.." and "/."
unfoldable pub finish : Dots → Bytes
unfolding backs
finish s = if s.after_slash && is_dots s.dot_cnt then b'/' ∷ backs s.dot_cnt s.dst else s.dst

unfoldable pub remove_dot_segments : Bytes → Bytes
unfolding steps finish
remove_dot_segments s = reverse (finish (steps start s))

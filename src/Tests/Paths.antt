-- ===== src/Tests/Paths.antt =====
-- Paths through src/uri_parser/uri_parser.c.
use freshplayerplugin.Base.{◌≡◌, ◌≤◌, codes, equal, length}
use freshplayerplugin.Uri.Dots.{remove_dot_segments, steps, start}
use freshplayerplugin.Uri.Dots.Segments.{absolute, resolve, split_onto}
use freshplayerplugin.Uri.Dots.Loop.{remove_dot_segments-resolve}
use freshplayerplugin.Uri.Dots.Length.{remove_dot_segments-length}

remove_dot_segments-resolve_example : remove_dot_segments (codes "/a/b/../c/./d") ≡ codes "/a/c/d"
unfolding resolve absolute split_onto equal
remove_dot_segments-resolve_example = remove_dot_segments-resolve (codes "a/b/../c/./d")

remove_dot_segments-length_example :
    (length (steps start (codes "/a/..")).dst ≤ 5)
    × (length (remove_dot_segments (codes "/a/..")) ≤ 5)
remove_dot_segments-length_example = remove_dot_segments-length (codes "/a/..")

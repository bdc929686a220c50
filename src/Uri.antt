-- ===== src/Uri.antt =====
-- src/uri_parser/uri_parser.c: relative references are resolved against a base URI (RFC 3986,
-- 5.2). Strings are their bytes, with no zero among them.
pub mod Dots
pub mod Merge

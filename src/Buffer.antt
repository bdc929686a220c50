-- ===== src/Buffer.antt =====
-- src/ppb_buffer.c: memory that a plugin shares, as a resource. Mapping a buffer takes a reference
-- to it, which keeps the memory until the buffer is unmapped.
pub mod Lifetime
use freshplayerplugin.Base.{
  ℕ, Bool, false, Option, none, some, ◌==◌, if◌then◌else◌, Bytes, replicate,
}
use freshplayerplugin.Resource.{Registry, get_type, add_ref, unref, release}
use freshplayerplugin.Resource.Access.{make, look, with_resource}

-- `struct pp_buffer_s`; `none` is NULL
pub record Buffer : Type 0 where
  pub content : Option Bytes
  pub len : ℕ

abbrev pub buffer_type : ℕ
buffer_type = 25

abbrev pub no_buffer : Buffer
no_buffer = record { content = none; len = 0 }

abbrev pub new_buffer : ℕ → Buffer
new_buffer size = record { content = some (replicate size 0); len = size }

unfoldable pub buffer_create : Option ℕ → ℕ → Registry Buffer → Option (Registry Buffer × ℕ)
unfolding make
buffer_create inst size g = make no_buffer (λ _. new_buffer size) buffer_type inst g

unfoldable pub buffer_destroy : Buffer → Buffer
buffer_destroy b = record b { content = none }

unfoldable pub is_buffer : ℕ → Registry Buffer → Bool
is_buffer h g = get_type h g == buffer_type

-- `none` is PP_FALSE
unfoldable pub buffer_describe : ℕ → Registry Buffer → Option (Registry Buffer × Option ℕ)
unfolding look
buffer_describe h g = look buffer_type h g none (λ b. some b.len)

unfoldable pub buffer_map : ℕ → Registry Buffer → Option (Registry Buffer × Option Bytes)
unfolding with_resource
buffer_map h g =
    with_resource buffer_type h g (g, none)
      (λ r g'. ((release h (add_ref h g').0).0, r.body.content))

unfoldable pub buffer_unmap : ℕ → Registry Buffer → Registry Buffer
unfolding is_buffer
buffer_unmap h g = if is_buffer h g then (unref h g).0 else g

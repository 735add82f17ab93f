-- ===== src/Core/Types.antt =====
-- rust/src/multipart.rs: the types, and `usize` arithmetic.
use django_fast_multipart.Base.{ℕ, ◌+◌, ◌-◌, ◌^◌, min, Bool, List, Option, Bytes}

pub data MultipartState : Type 0 where
  preamble header body discard end : MultipartState

-- A `usize` of a 64-bit target.
abbrev pub usize_max : ℕ
usize_max = 2 ^ 64 - 1

unfoldable pub saturating_add : ℕ → ℕ → ℕ
saturating_add a b = min (a + b) usize_max

-- `Vec<(Vec<u8>, Vec<u8>)>`
abbrev pub Headers : Type 0
Headers = List (Bytes × Bytes)

pub data MultipartEvent (D : Type 0) : Type 0 where
  begin : Headers → MultipartEvent D
  part_data : D → MultipartEvent D
  end : MultipartEvent D
  raw : MultipartEvent D

pub data DelimiterSuffix : Type 0 where
  open_at : ℕ → DelimiterSuffix
  close incomplete invalid bare_line_feed : DelimiterSuffix

-- The finder is the search of `Memmem.find` for `dash_boundary`.
pub record MultipartParser : Type 0 where
  pub max_size : Option ℕ
  pub max_header_count : ℕ
  pub max_header_size : ℕ
  pub max_total_header_size : Option ℕ
  pub state : MultipartState
  pub buffer : Bytes
  pub dash_boundary : Bytes
  pub delimiter_length : ℕ
  pub size : ℕ
  pub current_headers : Headers
  pub current_total_header_size : ℕ
  pub pending_headers : Bool
  pub eof_received : Bool

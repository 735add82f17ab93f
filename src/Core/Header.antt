-- ===== src/Core/Header.antt =====
-- rust/src/multipart.rs: one header line of `handle_header`, cut into its name and value.
use django_fast_multipart.Base.{
  ℕ, suc, ◌+◌, Bool, ◌||◌, [], ◌∷◌, Bytes, take, drop, ◌==◌, if◌then◌else◌,
}
use mathlib.Core.List.{reverse}

-- `rposition(|byte| *byte != b' ').map_or(0, |index| index + 1)`
unfoldable pub name_length : Bytes → ℕ
name_length [] = 0
name_length (c ∷ cs) =
    let rest = name_length cs in if rest == 0 then (if c == b' ' then 0 else 1) else suc rest

-- `u8::is_ascii_whitespace`
abbrev pub is_ascii_whitespace : ℕ → Bool
is_ascii_whitespace c = c == 0x20 || c == 0x09 || c == 0x0a || c == 0x0c || c == 0x0d

unfoldable pub trim_ascii_start : Bytes → Bytes
trim_ascii_start [] = []
trim_ascii_start (c ∷ cs) = if is_ascii_whitespace c then trim_ascii_start cs else c ∷ cs

-- `[u8]::trim_ascii`
unfoldable pub trim_ascii : Bytes → Bytes
trim_ascii bs = reverse (trim_ascii_start (reverse (trim_ascii_start bs)))

-- The header of a line whose first colon is at `separator`.
unfoldable pub split_line : Bytes → ℕ → Bytes × Bytes
split_line line separator = (
  take (name_length (take separator line)) (take separator line),
  trim_ascii (drop (separator + 1) line),
)

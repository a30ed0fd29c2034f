-- ===== src/Digest.antt =====
-- SHA-256 with its hexadecimal text, crypto/sha256 and encoding/hex, as a parameter of the model.
-- Nothing is assumed of collisions: theorems speak of keys, and say where two keys must differ.
use rungpu_agent.Base.{
  ◌≡◌, String, Bool, true, ℕ, ◌*◌, ◌&&◌, codes, length, all, is_hex, ◌==◌, nat_eq, string_eq,
  if◌then◌else◌, Bool-cases, inl, inr, refl,
}

-- hex.DecodeString accepts the text, and it stands for `n` bytes.
unfoldable pub decodes_to : ℕ → String → Bool
decodes_to n s = length (codes s) == 2 * n && all is_hex (codes s)

-- The digest is 32 bytes, so its text is 64 hexadecimal digits.
pub record Sha256 : Type 0 where
  pub hex_sum : String → String
  pub hex_sum_decodes : (s : String) → decodes_to 32 (hex_sum s) ≡ true

abbrev ones : String
ones = "1111111111111111111111111111111111111111111111111111111111111111"

abbrev twos : String
twos = "2222222222222222222222222222222222222222222222222222222222222222"

-- A concrete function with the stated shape, for the examples: it tells one text from the others.
abbrev pub toy_sum : String → String → String
toy_sum marked s = if s == marked then ones else twos

pub toy_sum_decodes : (marked s : String) → decodes_to 32 (toy_sum marked s) ≡ true
unfolding decodes_to
toy_sum_decodes marked s = elim (Bool-cases (s == marked)) [ inl e ↦ rw e refl | inr e ↦ rw e refl ]

abbrev pub toy_sha256 : String → Sha256
toy_sha256 marked = record { hex_sum = toy_sum marked; hex_sum_decodes = toy_sum_decodes marked }

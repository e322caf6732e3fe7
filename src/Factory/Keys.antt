-- ===== src/Factory/Keys.antt =====
-- The keys of the factory's storage never meet: hashes of 32 bytes, and longer texts that allow one.
use Prim.Native.String
use staking_farm.Prelude.{
  ◌≡◌, Bool, false, String, str_eq, eq_iff, ap, sym, ◌∙◌, Bool-cases, inl, inr, arith,
}
use text.Mathlib.TextLemmas.{append_cancel_left, length-append}
use staking_farm.Factory.{Host, code_hash_to_key}
use staking_farm.Contract.{Sdk}

module _ ⦃sdk : Sdk⦄ ⦃host : Host⦄ where
  pub not_str_eq : (s t : String) → (s ≡ t → ⊥) → str_eq s t ≡ false
  not_str_eq s t differ = elim (Bool-cases (str_eq s t)) [
    | inl same ↦ absurd (differ ((eq_iff s t).0 same))
    | inr other ↦ other
  ]

  key-apart : (g h : host.CryptoHash) → code_hash_to_key g ≡ host.bytes h → ⊥
  unfolding code_hash_to_key
  key-apart g h same =
      let counted = ap String.count same in
      omega (
        arith,
        counted,
        length-append "allow:" (host.to_json g),
        host.count-bytes h,
        host.count-to_json g,
      )

  -- A key that allows a hash is never the key of a code.
  pub key_apart : (g h : host.CryptoHash) → str_eq (code_hash_to_key g) (host.bytes h) ≡ false
  key_apart g h = not_str_eq (code_hash_to_key g) (host.bytes h) (key-apart g h)

  pub apart_key : (g h : host.CryptoHash) → str_eq (host.bytes h) (code_hash_to_key g) ≡ false
  apart_key g h = not_str_eq (host.bytes h) (code_hash_to_key g) (λ same. key-apart g h (sym same))

  key_injective : (g h : host.CryptoHash) → code_hash_to_key g ≡ code_hash_to_key h → g ≡ h
  unfolding code_hash_to_key
  key_injective g h same =
      host.to_json-injective g h
        (append_cancel_left "allow:" (host.to_json g) (host.to_json h) same)

  -- Two hashes are the same if their bytes are.
  abbrev pub same_hash : host.CryptoHash → host.CryptoHash → Bool
  same_hash g h = str_eq (host.bytes g) (host.bytes h)

  -- Keys that allow hashes are equal exactly when the hashes are.
  pub same_key_eq :
      (g h : host.CryptoHash) → str_eq (code_hash_to_key g) (code_hash_to_key h) ≡ same_hash g h
  same_key_eq g h = elim (Bool-cases (same_hash g h)) [
    | inl same ↦
        let equal = host.bytes-injective g h ((eq_iff (host.bytes g) (host.bytes h)).0 same) in
        (eq_iff (code_hash_to_key g) (code_hash_to_key h)).1 (ap (λ k. code_hash_to_key k) equal)
        ∙ sym same
    | inr other ↦
        not_str_eq (code_hash_to_key g) (code_hash_to_key h) (λ k.
          cc
            ((eq_iff (host.bytes g) (host.bytes h)).1 (ap host.bytes (key_injective g h k)), other))
        ∙ sym other
  ]

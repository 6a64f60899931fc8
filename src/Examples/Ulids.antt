-- ===== src/Examples/Ulids.antt =====
-- The canonical text of a ULID, 26 digits to the base 32 in Crockford's alphabet, and paths of
-- ULIDs written with it.
use cognet.Prelude.{
  ℕ, zero, suc, ◌+◌, ◌*◌, ◌/◌, ◌%◌, ◌<◌, ◌≡◌, refl, ◌∙◌, sym, List, [], ◌∷◌, ◌++◌, length,
  length-append, arith, ltb, if◌then◌else◌,
}
use cognet.NodePath.{NodePath, root, child}
use cognet.NodePath.Display.{display, display_injective, IsUlidText, AreUlids, append_split}

-- 0-9, and the letters without I, L, O and U
abbrev digit : ℕ → ℕ
digit d =
    if ltb d 10
    then d + 48
    else if ltb d 18
    then d + 55
    else if ltb d 20
    then d + 56
    else if ltb d 22
    then d + 57
    else if ltb d 27
    then d + 58
    else d + 59

digit_injective : (d e : ℕ) → digit d ≡ digit e → d ≡ e
digit_injective d e h = ground arith

-- the last `k` digits, the most significant one first
abbrev encode : ℕ → ℕ → List ℕ
encode zero n = []
encode (suc k) n = encode k (n / 32) ++ digit (n % 32) ∷ []

abbrev powers : ℕ → ℕ
powers zero = 1
powers (suc k) = 32 * powers k

length-encode : (k n : ℕ) → length (encode k n) ≡ k
length-encode zero n = refl
length-encode (suc k) n =
    omega (arith, length-append (encode k (n / 32)) (digit (n % 32) ∷ []), length-encode k (n / 32))

encode_injective : (k n m : ℕ) → n < powers k → m < powers k → encode k n ≡ encode k m → n ≡ m
encode_injective zero n m a b e = omega arith
encode_injective (suc k) n m a b e =
    let (p, q) =
      append_split (encode k (n / 32)) (encode k (m / 32)) (digit (n % 32) ∷ [])
        (digit (m % 32) ∷ []) (length-encode k (n / 32) ∙ sym (length-encode k (m / 32))) e in
    let high = encode_injective k (n / 32) (m / 32) (omega arith) (omega arith) p in
    let low = digit_injective (n % 32) (m % 32) (cc q) in omega (arith, high, low)

abbrev ulid_text : ℕ → List ℕ
ulid_text = encode 26

ulid_text-IsUlidText : IsUlidText ulid_text
ulid_text-IsUlidText = record {
  width = λ i a. length-encode 26 i;
  injective = λ i j a b e. encode_injective 26 i j (omega arith) (omega arith) e;
}

abbrev a_path : NodePath
a_path = record { segments = 1 ∷ 2 ∷ [] }

same_text : display ulid_text a_path ≡ display ulid_text (child (child root 1) 2)
unfolding root child
same_text = refl

bounded : AreUlids (child (child root 1) 2).segments
unfolding root child
bounded = (omega arith, (omega arith, tt))

display_injective_example : a_path ≡ child (child root 1) 2
display_injective_example =
    display_injective ulid_text ulid_text-IsUlidText a_path (child (child root 1) 2)
      (omega arith, (omega arith, tt)) bounded same_text

-- ===== src/NodePath/Display.antt =====
-- `impl Display for NodePath`. Text is the list of its code points. How a ULID is written is the
-- `ulid` crate's: `id_string` is a parameter, of which the proofs use its documented format.
use cognet.Prelude.{
  ℕ, ◌^◌, ◌<◌, ◌≡◌, refl, ap, sym, ◌∙◌, List, [], ◌∷◌, ◌++◌, arith, length, if◌then◌else◌,
  length-append,
}
use cognet.NodePath.{NodeId, NodePath, is_root, is_empty}

module _ (id_string : NodeId → List ℕ) where
  segments_text : List NodeId → List ℕ
  segments_text [] = []
  segments_text (s ∷ ss) = b'/' ∷ (id_string s ++ segments_text ss)

  -- `fmt`
  unfoldable pub display : NodePath → List ℕ
  unfolding segments_text
  display p = if is_root p then b'/' ∷ [] else segments_text p.segments

-- a ULID has 128 bits
abbrev pub IsUlid : NodeId → Type 0
IsUlid id = id < 2 ^ 128

abbrev pub AreUlids : List NodeId → Type 0
AreUlids [] = Unit
AreUlids (id ∷ ids) = IsUlid id × AreUlids ids

-- The canonical text of a ULID has 26 characters and determines it.
pub record IsUlidText (id_string : NodeId → List ℕ) : Type 0 where
  pub width : (i : NodeId) → IsUlid i → length (id_string i) ≡ 26
  pub injective : (i j : NodeId) → IsUlid i → IsUlid j → id_string i ≡ id_string j → i ≡ j

pub append_split {ℓ} :
    {A : Type ℓ} (xs ys us vs : List A)
    → length xs ≡ length ys
    → xs ++ us ≡ ys ++ vs
    → (xs ≡ ys) × (us ≡ vs)
append_split [] [] us vs h e = (refl, e)
append_split [] (y ∷ ys) us vs h e = absurd (omega arith)
append_split (x ∷ xs) [] us vs h e = absurd (omega arith)
append_split (x ∷ xs) (y ∷ ys) us vs h e =
    let tails : xs ++ us ≡ ys ++ vs = cc e in
    let (p, q) = append_split xs ys us vs (omega arith) tails in (cc (p, e), q)

module _ (id_string : NodeId → List ℕ) (u : IsUlidText id_string) where
  segments_text_injective :
      (ss ts : List NodeId)
      → AreUlids ss
      → AreUlids ts
      → segments_text id_string ss ≡ segments_text id_string ts
      → ss ≡ ts
  unfolding segments_text
  segments_text_injective [] [] a b e = refl
  segments_text_injective [] (t ∷ ts) a b e = cc
  segments_text_injective (s ∷ ss) [] a b e = cc
  segments_text_injective (s ∷ ss) (t ∷ ts) a b e =
      let tails : id_string s ++ segments_text id_string ss
          ≡ id_string t ++ segments_text id_string ts =
        cc e in
      let (p, q) =
        append_split (id_string s) (id_string t) (segments_text id_string ss)
          (segments_text id_string ts) (u.width s a.0 ∙ sym (u.width t b.0)) tails in
      cc (u.injective s t a.0 b.0 p, segments_text_injective ss ts a.1 b.1 q)

  not_a_slash :
      (s : NodeId) (ss : List NodeId) → IsUlid s → segments_text id_string (s ∷ ss) ≡ b'/' ∷ [] → ⊥
  unfolding segments_text
  not_a_slash s ss a e =
      let l = ap length e in
      omega (arith, l, u.width s a, length-append (id_string s) (segments_text id_string ss))

  display_cases :
      (ss ts : List NodeId)
      → AreUlids ss
      → AreUlids ts
      → (if is_empty ss then b'/' ∷ [] else segments_text id_string ss)
        ≡ (if is_empty ts then b'/' ∷ [] else segments_text id_string ts)
      → ss ≡ ts
  display_cases [] [] a b e = refl
  display_cases [] (t ∷ ts) a b e = absurd (not_a_slash t ts b.0 (sym e))
  display_cases (s ∷ ss) [] a b e = absurd (not_a_slash s ss a.0 e)
  display_cases (s ∷ ss) (t ∷ ts) a b e = segments_text_injective (s ∷ ss) (t ∷ ts) a b e

  -- Two paths of ULIDs that are written alike are the same path.
  pub display_injective :
      (p q : NodePath)
      → AreUlids p.segments
      → AreUlids q.segments
      → display id_string p ≡ display id_string q
      → p ≡ q
  unfolding display is_root
  display_injective p q a b e =
      ap (λ (t : List NodeId). record { segments = t }) (display_cases p.segments q.segments a b e)

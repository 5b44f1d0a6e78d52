-- ===== src/Gateway/Flags.antt =====
-- Lists on the command line.
use gnmi_gateway.Prelude.{
  codes, true, false, List, [], ◌∷◌, Text, ◌==◌, All, lacks, split, split-part, split-whole, join,
  trim, is_space, ◌≡◌, refl, ◌∙◌, ap,
}
use gnmi_gateway.Gateway.{clean_split, clean_parts}

-- A part without a comma, and without white space at its ends.
pub record IsClean (p : Text) : Type 0 where
  pub named : (p == []) ≡ false
  pub one_part : lacks b',' p ≡ true
  pub trimmed : trim is_space p ≡ p

clean_parts-clean : (parts : List Text) → All IsClean parts → clean_parts parts ≡ parts
unfolding clean_parts
clean_parts-clean [] h = refl
clean_parts-clean (p ∷ parts) h =
    rw (h.0.trimmed, h.0.named) (ap (λ ps. p ∷ ps) (clean_parts-clean parts h.1))

split-join :
    (p : Text) (parts : List Text)
    → All IsClean (p ∷ parts)
    → split (join (p ∷ parts) (codes ",")) b',' ≡ p ∷ parts
unfolding join
split-join p [] h = split-whole b',' p h.0.one_part
split-join p (q ∷ parts) h =
    split-part b',' p (join (q ∷ parts) (codes ",")) h.0.one_part
    ∙ ap (λ ps. p ∷ ps) (split-join q parts h.1)

-- A list of names without commas and without white space at their ends, joined by commas, is read
-- back as it was.
pub clean_split-join :
    (p : Text) (parts : List Text)
    → All IsClean (p ∷ parts)
    → clean_split (join (p ∷ parts) (codes ",")) ≡ p ∷ parts
unfolding clean_split
clean_split-join p parts h = ap clean_parts (split-join p parts h) ∙ clean_parts-clean (p ∷ parts) h

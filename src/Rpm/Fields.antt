-- ===== src/Rpm/Fields.antt =====
-- Lines cut into fields.
use fapolicyd_analyzer.Base.{
  lacks, ℕ, zero, suc, ◌<◌, ◌≡◌, refl, ap, Bool, true, false, ◌&&◌, ◌==◌, none, some, List, [], ◌∷◌,
  ◌++◌, CString, length, ok, fault, arith, inl, inr, ◌⊎◌, Bool-cases,
}
use fapolicyd_analyzer.Rpm.{strchr, split_fields, chomp}

-- Specification: no such byte in any of the texts.
unfoldable pub all_lack : ℕ → List CString → Bool
all_lack c [] = true
all_lack c (field ∷ fields) = lacks c field && all_lack c fields

-- Specification: the fields with the byte between them, the last one as it is.
unfoldable pub joined_by : ℕ → List CString → CString → CString
joined_by c [] last = last
joined_by c (field ∷ fields) last = field ++ c ∷ joined_by c fields last

-- Specification: how often the byte occurs.
unfoldable pub occurrences : ℕ → CString → ℕ
occurrences c [] = 0
occurrences c (d ∷ text) = elim (d == c) [
  | true ↦ suc (occurrences c text)
  | false ↦ occurrences c text
]

pub strchr-lacks :
    (c : ℕ) (field text : CString)
    → lacks c field ≡ true
    → strchr c (field ++ c ∷ text) ≡ some (field, text)
unfolding strchr lacks
strchr-lacks c [] text h = ground arith
strchr-lacks c (d ∷ field) text h = ground (arith, strchr-lacks c field text)

-- Fields without the separator, each with one behind it, and a last field of any kind are cut apart
-- again.
pub split_fields-joined_by :
    (c : ℕ) (fields : List CString) (last : CString)
    → all_lack c fields ≡ true
    → split_fields c (length fields) (joined_by c fields last) ≡ ok (fields ++ last ∷ [])
unfolding split_fields joined_by all_lack
split_fields-joined_by c [] last h = refl
split_fields-joined_by c (field ∷ fields) last h =
    ground
      (arith, strchr-lacks c field (joined_by c fields last), split_fields-joined_by c fields last)

strchr-occurrences :
    (c : ℕ) (text : CString)
    → (((strchr c text ≡ none) × (occurrences c text ≡ 0))
        ⊎ ((field rest : CString) × (strchr c text ≡ some (field, rest))
            × (occurrences c text ≡ suc (occurrences c rest))))
unfolding strchr occurrences
strchr-occurrences c [] = inl (refl, refl)
strchr-occurrences c (d ∷ text) = elim (Bool-cases (d == c)) [
  | inl same ↦ inr ([], text, rw (same, strchr) refl, rw (same, occurrences) refl)
  | inr other ↦ elim (strchr-occurrences c text) [
    | inl (gone, zero_times) ↦ inl (ground arith, ground arith)
    | inr (field, rest, found, times) ↦ inr (d ∷ field, rest, ground arith, ground arith)
  ]
]

-- On a line in which the separator occurs less often than the loop of rpm.c cuts it, the loop
-- writes through a null pointer.
pub split_fields-fault :
    (c left : ℕ) (text : CString) → occurrences c text < left → split_fields c left text ≡ fault
unfolding split_fields
split_fields-fault c zero text h = absurd (omega arith)
split_fields-fault c (suc left) text h = elim (strchr-occurrences c text) [
  | inl (gone, zero_times) ↦ ground arith
  | inr (field, rest, found, times) ↦
      let onward = split_fields-fault c left rest (omega arith) in ground arith
]

pub chomp-append : (text : CString) → chomp (text ++ b'\n' ∷ []) ≡ text
unfolding chomp
chomp-append [] = refl
chomp-append (c ∷ []) = refl
chomp-append (c ∷ d ∷ text) = ap (λ rest. c ∷ rest) (chomp-append (d ∷ text))

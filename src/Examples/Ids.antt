-- ===== src/Examples/Ids.antt =====
-- Ids as texts: the n-th id has n + 1 characters.
use Prim.Native.String.{[], ◌∷◌}
use chaos_harness.Common.{
  ℕ, zero, suc, String, ◌≡◌, refl, sym, ap, ◌∙◌, inl, inr, false, Option, none, some, str_eq,
  eq_iff, Bool-cases,
}
use chaos_harness.Runtime.{PgText}

abbrev pub print_id : ℕ → String
print_id zero = "j"
print_id (suc n) = "j" ∷ print_id n

abbrev pub parse_id : String → Option ℕ
parse_id [] = none
parse_id (c ∷ s) = elim (parse_id s) [ none ↦ some 0 | some n ↦ some (suc n) ]

pub parse_id-print_id : (n : ℕ) → parse_id (print_id n) ≡ some n
parse_id-print_id zero = refl
parse_id-print_id (suc n) = rw (parse_id-print_id n) refl

pub print_id_nonempty : (n : ℕ) → str_eq (print_id n) "" ≡ false
print_id_nonempty n = elim (Bool-cases (str_eq (print_id n) "")) [
  | inr e ↦ e
  | inl e ↦
      let parsed : some n ≡ none =
        sym (parse_id-print_id n) ∙ ap parse_id ((eq_iff (print_id n) "").0 e) in
      cc
]

abbrev pub ids : PgText
ids = record {
  print = print_id;
  parse = parse_id;
  parse-print = parse_id-print_id;
  print_nonempty = print_id_nonempty;
  jsonb_text = λ v. "{}";
}

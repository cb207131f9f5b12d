-- ===== src/Cmd/Args/Reorder.antt =====
-- cmd/tantu/args.go: reordering is settled after one pass, and the flag block is found again.
use mathlib.Core.List.{append_assoc, append-nil}
use tantu.Prelude.{
  ◌≡◌, ◌⊎◌, refl, sym, subst, ap, ◌∙◌, inl, inr, Bool, true, false, not, ◌&&◌, Option, none, some,
  List, [], ◌∷◌, ◌++◌, All, if_cases, Bool-cases, if◌then◌else◌, arith,
}
use tantu.Text.{Text, codes}
use tantu.Text.Laws.{eq_sound}
use tantu.Cmd.Args.{
  Collected, with_flag, with_pos, is_dashed, is_double_dash, takes_value, collect, tail_of, joined,
  normalize_args, split_flags, split_leading_flags,
}

-- A block of flags and their values, where the flag before takes a value or not.
data IsBlock : Bool → List Text → Type 0 where
  done : (takes : Bool) → IsBlock takes []
  value :
      (arg : Text) (args : List Text)
      → is_dashed arg ≡ false
      → IsBlock false args
      → IsBlock true (arg ∷ args)
  flag :
      (takes : Bool) (arg : Text) (args : List Text)
      → is_dashed arg ≡ true
      → is_double_dash arg ≡ false
      → IsBlock (takes_value arg) args
      → IsBlock takes (arg ∷ args)

-- Whether the last flag of a block still takes a value.
unfoldable pub ends_taking : Bool → List Text → Bool
ends_taking takes [] = takes
ends_taking takes (arg ∷ args) =
    let value = ends_taking false args in
    let flag = ends_taking (takes_value arg) args in
    if takes && not (is_dashed arg) then value else flag

-- What stands among the flags and what among the positionals.
IsSorted : Bool → Collected → Type 0
IsSorted takes c = IsBlock takes c.flags × All (λ a. is_dashed a ≡ false) c.pos

not_taking : (takes dashed : Bool) → (takes && not dashed) ≡ false → dashed ≡ false → takes ≡ false
not_taking takes dashed e plain = ground (arith, e, plain)

taken :
    (takes : Bool) (arg : Text) (args : List Text)
    → (takes && not (is_dashed arg)) ≡ true
    → IsSorted false (collect false args)
    → IsSorted takes (with_flag arg (collect false args))
unfolding IsSorted
taken false arg args e rest = absurd cc
taken true arg args e rest = (value arg _ (ground (arith, e)) rest.0, rest.1)

collect-IsSorted : (takes : Bool) (args : List Text) → IsSorted takes (collect takes args)
unfolding collect IsSorted
collect-IsSorted takes [] = (done takes, tt)
collect-IsSorted takes (arg ∷ args) =
    if_cases (IsSorted takes) (takes && not (is_dashed arg))
      (λ e. taken takes arg args e (collect-IsSorted false args))
      (λ e.
        if_cases (IsSorted takes) (is_double_dash arg) (λ _. (done takes, tt))
          (λ single.
            if_cases (IsSorted takes) (is_dashed arg)
              (λ dashed.
                let rest = collect-IsSorted (takes_value arg) args in
                (flag takes arg _ dashed single rest.0, rest.1))
              (λ plain.
                let rest = collect-IsSorted false args in
                (
                  subst (λ t. IsBlock t (collect false args).flags)
                      (sym (not_taking takes (is_dashed arg) e plain)) rest.0,
                  (plain, rest.1),
                ))))

double_dash : is_dashed (codes "--") ≡ true
unfolding is_dashed
double_dash = refl

plain_single : (arg : Text) → is_dashed arg ≡ false → is_double_dash arg ≡ false
unfolding is_double_dash
plain_single arg plain = elim (Bool-cases (is_double_dash arg)) [
  | inr e ↦ e
  | inl e ↦
      let dashed : is_dashed arg ≡ true =
        subst (λ t. is_dashed t ≡ true) (sym (eq_sound arg (codes "--") e)) double_dash in
      cc
]

sorted :
    (takes : Bool) (args : List Text)
    → IsBlock takes (collect takes args).flags
      × All (λ a. is_dashed a ≡ false) (collect takes args).pos
unfolding IsSorted
sorted takes args = collect-IsSorted takes args

-- Positionals stay, whatever follows the bare "--".
collect_positionals :
    (ps : List Text) (after : Option (List Text))
    → All (λ a. is_dashed a ≡ false) ps
    → collect false (ps ++ tail_of after) ≡ record { flags = []; pos = ps; after = after }
unfolding collect tail_of
collect_positionals [] none h = refl
collect_positionals [] (some args) h = refl
collect_positionals (p ∷ ps) after h =
    let plain = h.0 in
    rw (plain, plain_single p plain) (ap (with_pos p) (collect_positionals ps after h.1))

with_flags : List Text → Collected → Collected
with_flags fs c = record c { flags = fs ++ c.flags }

-- A block that is collected again stays a block.
collect_block :
    (takes : Bool) (fs rest : List Text)
    → IsBlock takes fs
    → collect takes (fs ++ rest) ≡ with_flags fs (collect (ends_taking takes fs) rest)
unfolding collect ends_taking with_flags
collect_block takes [] rest (done _) = refl
collect_block true (arg ∷ args) rest (value _ _ plain b) =
    rw plain (ap (with_flag arg) (collect_block false args rest b))
collect_block true (arg ∷ args) rest (flag _ _ _ dashed single b) =
    rw (dashed, single) (ap (with_flag arg) (collect_block (takes_value arg) args rest b))
collect_block false (arg ∷ args) rest (flag _ _ _ dashed single b) =
    rw (dashed, single) (ap (with_flag arg) (collect_block (takes_value arg) args rest b))

joined-with_flags : (fs : List Text) (c : Collected) → joined (with_flags fs c) ≡ fs ++ joined c
unfolding joined with_flags
joined-with_flags fs c = append_assoc fs c.flags (c.pos ++ tail_of c.after)

joined_positionals :
    (takes : Bool) (ps : List Text) (after : Option (List Text))
    → All (λ a. is_dashed a ≡ false) ps
    → joined (collect takes (ps ++ tail_of after)) ≡ ps ++ tail_of after
unfolding joined collect tail_of
joined_positionals false ps after h = ap joined (collect_positionals ps after h)
joined_positionals true [] none h = refl
joined_positionals true [] (some args) h = refl
joined_positionals true (p ∷ ps) after h =
    rw h.0 (ap (◌∷◌ p) (joined_positionals false ps after h.1))

-- A second pass changes nothing, whatever the arguments.
pub normalize_args-normalize_args :
    (args : List Text) → normalize_args (normalize_args args) ≡ normalize_args args
unfolding normalize_args joined
normalize_args-normalize_args args =
    let c = collect false args in
    let (block, plain) = sorted false args in
    let rest = c.pos ++ tail_of c.after in
    let t = ends_taking false c.flags in
    ap joined (collect_block false c.flags rest block)
    ∙ joined-with_flags c.flags (collect t rest)
    ∙ ap (λ r. c.flags ++ r) (joined_positionals t c.pos c.after plain)

pushed : Text → List Text × List Text → List Text × List Text
pushed arg r = (arg ∷ r.0, r.1)

split_block :
    (takes : Bool) (fs rest : List Text)
    → IsBlock takes fs
    → split_flags takes (fs ++ rest) ≡ (
      fs ++ (split_flags (ends_taking takes fs) rest).0,
      (split_flags (ends_taking takes fs) rest).1,
    )
unfolding split_flags ends_taking pushed
split_block takes [] rest (done _) = refl
split_block true (arg ∷ args) rest (value _ _ plain b) =
    rw plain (ap (pushed arg) (split_block false args rest b))
split_block true (arg ∷ args) rest (flag _ _ _ dashed single b) =
    rw (dashed, single) (ap (pushed arg) (split_block (takes_value arg) args rest b))
split_block false (arg ∷ args) rest (flag _ _ _ dashed single b) =
    rw (dashed, single) (ap (pushed arg) (split_block (takes_value arg) args rest b))

split_positionals :
    (ps : List Text) (after : Option (List Text))
    → All (λ a. is_dashed a ≡ false) ps
    → split_flags false (ps ++ tail_of after) ≡ ([], ps ++ tail_of after)
unfolding split_flags tail_of
split_positionals [] none h = refl
split_positionals [] (some args) h = refl
split_positionals (p ∷ ps) after h = rw (h.0, plain_single p h.0) refl

split_tail :
    (takes : Bool) (after : Option (List Text))
    → split_flags takes (tail_of after) ≡ ([], tail_of after)
unfolding split_flags tail_of
split_tail takes none = refl
split_tail true (some args) = refl
split_tail false (some args) = refl

-- Behind NormalizeArgs, splitLeadingFlags gives back the flags with their values, and the positionals
-- with what followed a bare "--", where the last flag has its value if it takes one or there are no
-- positionals.
pub split_leading_flags-normalize_args :
    (args : List Text)
    → (ends_taking false (collect false args).flags ≡ false) ⊎ ((collect false args).pos ≡ [])
    → split_leading_flags (normalize_args args)
      ≡ ((collect false args).flags, (collect false args).pos ++ tail_of (collect false args).after)
unfolding split_leading_flags normalize_args joined
split_leading_flags-normalize_args args ready =
    let c = collect false args in
    let (block, plain) = sorted false args in
    let rest = c.pos ++ tail_of c.after in
    let t = ends_taking false c.flags in
    let behind : split_flags t rest ≡ ([], rest) = elim ready [
      | inl settled ↦ ap (λ b. split_flags b rest) settled ∙ split_positionals c.pos c.after plain
      | inr alone ↦
          subst (λ ps. split_flags t (ps ++ tail_of c.after) ≡ ([], ps ++ tail_of c.after))
            (sym alone) (split_tail t c.after)
    ] in
    split_block false c.flags rest block
    ∙ ap (λ (r : List Text × List Text). (c.flags ++ r.0, r.1)) behind
    ∙ ap (λ fs. (fs, rest)) (append-nil c.flags)

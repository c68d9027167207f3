-- ===== src/SelfDefense/Refusals.antt =====
-- The conditions on which `PreCreateFile` and `PreSetInformationFile` of self_defense.cpp refuse an operation,
-- by the bits and numbers of the kernel's headers.
use Prim.Native.Nat.{bit_and}
use windows_kernel_events_tr.Prelude.{
  ℕ, ◌/◌, ◌%◌, ◌^◌, ◌≡◌, ◌⊎◌, ◌↔◌, inl, inr, refl, subst, ◌∙◌, Bool, true, false, ◌||◌, not,
  if◌then◌else◌, ◌==◌, ==_iff, Bool-cases, arith,
}
use windows_kernel_events_tr.Prelude.Bits.{
  flag_on, testbit, testbit-bit_and, testbit-lt, flag_on_iff,
}
use windows_kernel_events_tr.SelfDefense.Files.{
  Outcome, Create, is_changing, is_moving, is_modifying, status_access_denied,
}

-- The operation is refused if the condition holds, and passes if it does not.
pub record IsDecided (o : Outcome) (P : Type 0) : Type 0 where
  pub refused : (o ≡ Outcome.complete status_access_denied) ↔ P
  pub passed : (o ≡ Outcome.pass) ↔ (P → ⊥)

pub decided_by :
    (b : Bool) (P : Type 0)
    → ((b ≡ true) ↔ P)
    → IsDecided (if b then Outcome.complete status_access_denied else Outcome.pass) P
decided_by true P decided = record {
  refused = (λ _. decided.0 refl, λ _. refl);
  passed = (λ e. cc, λ never. absurd (never (decided.0 refl)));
}
decided_by false P decided = record {
  refused = (λ e. cc, λ p. let on : false ≡ true = decided.1 p in cc);
  passed = (λ _ p. let on : false ≡ true = decided.1 p in cc, λ _. refl);
}

-- FILE_DELETE_ON_CLOSE is bit 12 of the options, the disposition their highest byte, of which FILE_OPEN
-- is bit 0; FILE_WRITE_DATA and FILE_APPEND_DATA are the bits 1 and 2 of the access.
abbrev pub IsOpenedToChange : Create → Type 0
IsOpenedToChange create =
    (testbit 12 create.options ≡ 1)
    ⊎ (create.options / 2 ^ 24 % 2 ≡ 0)
    ⊎ (testbit 1 create.desired_access ≡ 1)
    ⊎ (testbit 2 create.desired_access ≡ 1)

-- `FileAllocationInformation`, `FileDispositionInformation`, `FileEndOfFileInformation` and
-- `FileShortNameInformation`.
abbrev pub IsChange : ℕ → Type 0
IsChange c = (c ≡ 19) ⊎ (c ≡ 13) ⊎ (c ≡ 20) ⊎ (c ≡ 40)

-- A disjunction of four tests decides the sum of what they decide.
any_iff :
    (a b c d : Bool) (P Q R S : Type 0)
    → ((a ≡ true) ↔ P)
    → ((b ≡ true) ↔ Q)
    → ((c ≡ true) ↔ R)
    → ((d ≡ true) ↔ S)
    → ((a || b || c || d) ≡ true) ↔ (P ⊎ Q ⊎ R ⊎ S)
any_iff true b c d P Q R S p q r s = (λ _. inl (p.0 refl), λ _. refl)
any_iff false true c d P Q R S p q r s = (λ _. inr (inl (q.0 refl)), λ _. refl)
any_iff false false true d P Q R S p q r s = (λ _. inr (inr (inl (r.0 refl))), λ _. refl)
any_iff false false false d P Q R S p q r s = (
  λ e. inr (inr (inr (s.0 e))),
  elim [
    | inl x ↦ let on : false ≡ true = p.1 x in cc
    | inr (inl x) ↦ let on : false ≡ true = q.1 x in cc
    | inr (inr (inl x)) ↦ let on : false ≡ true = r.1 x in cc
    | inr (inr (inr x)) ↦ s.1 x
  ],
)

masked_iff :
    (options : ℕ) → (flag_on (bit_and options 0xFFFFFF) 0x1000 ≡ true) ↔ (testbit 12 options ≡ 1)
masked_iff options =
    let kept : testbit 12 (bit_and options 0xFFFFFF) ≡ testbit 12 options =
      testbit-bit_and 12 options 0xFFFFFF ∙ (let low = testbit-lt 12 options in omega arith) in
    subst (λ n. (flag_on (bit_and options 0xFFFFFF) 0x1000 ≡ true) ↔ (n ≡ 1)) kept
      (flag_on_iff (bit_and options 0xFFFFFF) 12)

even_iff : (n : ℕ) → (not (flag_on (n / 2 ^ 24 % 2 ^ 8) 1) ≡ true) ↔ (n / 2 ^ 24 % 2 ≡ 0)
even_iff n = negated (flag_on (n / 2 ^ 24 % 2 ^ 8) 1) (flag_on_iff (n / 2 ^ 24 % 2 ^ 8) 0)
  where
    negated :
        (b : Bool)
        → ((b ≡ true) ↔ (n / 2 ^ 24 % 2 ^ 8 % 2 ≡ 1))
        → (not b ≡ true) ↔ (n / 2 ^ 24 % 2 ≡ 0)
    negated true h = let odd = h.0 refl in (λ e. cc, λ even. absurd (omega arith))
    negated false h = (
      λ _. elim (Bool-cases (n / 2 ^ 24 % 2 == 0)) [
        | inl e ↦ (==_iff (n / 2 ^ 24 % 2) 0).0 e
        | inr other ↦
            let odd : n / 2 ^ 24 % 2 ^ 8 % 2 ≡ 1 = ground arith in
            let on : false ≡ true = h.1 odd in cc
      ],
      λ _. refl,
    )

pub is_modifying_iff : (create : Create) → (is_modifying create ≡ true) ↔ IsOpenedToChange create
unfolding is_modifying
is_modifying_iff create =
    any_iff _ _ _ _ _ _ _ _ (masked_iff create.options) (even_iff create.options)
      (flag_on_iff create.desired_access 1) (flag_on_iff create.desired_access 2)

pub is_changing_iff : (c : ℕ) → (is_changing c ≡ true) ↔ IsChange c
is_changing_iff c = any_iff _ _ _ _ _ _ _ _ (==_iff c 19) (==_iff c 13) (==_iff c 20) (==_iff c 40)

pub not_moving : (c : ℕ) → (c ≡ 10 → ⊥) → (c ≡ 11 → ⊥) → is_moving c ≡ false
not_moving c no_rename no_link = elim (Bool-cases (c == 11)) [
  | inl link ↦ absurd (no_link ((==_iff c 11).0 link))
  | inr other ↦ elim (Bool-cases (c == 10)) [
    | inl rename ↦ absurd (no_rename ((==_iff c 10).0 rename))
    | inr neither ↦ rw (other, neither) refl
  ]
]

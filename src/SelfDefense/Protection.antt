-- ===== src/SelfDefense/Protection.antt =====
-- What `IsInProtectedDirectory` of self_defense.cpp decides.
use windows_kernel_events_tr.Prelude.{
  ℕ, zero, suc, ◌+◌, ◌≤◌, ◌≡◌, ◌≢◌, ◌⊎◌, ◌↔◌, inl, inr, refl, sym, ap, ◌∙◌, subst, arith, List, [],
  ◌∷◌, ◌++◌, some, Bool, true, false, length, take, drop, if◌then◌else◌,
}
use windows_kernel_events_tr.Memory.{drop-cons}
use windows_kernel_events_tr.Vector
use windows_kernel_events_tr.Vector.{Vector}
use windows_kernel_events_tr.Vector.Growth.{IsValid}
use windows_kernel_events_tr.Strings.{String, empty_string, is_null, slots, contents}
use windows_kernel_events_tr.Strings.Compare.{
  IsAllocated, StartsWith, Decides, is_prefix_of-Decides, is_prefix_of-null,
}
use windows_kernel_events_tr.SelfDefense.Model.{scan_dirs, is_in_protected_directory}

-- A string that is null and empty, or has its block.
abbrev pub IsSound : String → Type 0
IsSound s = (s ≡ empty_string) ⊎ IsAllocated s

-- The path that a string stands for, if it is one.
abbrev pub IsPath : String → Type 0
IsPath s = is_null s.elements ≡ false

-- Every directory of the list is a string with its block.
abbrev pub AllAllocated : List String → Type 0
AllAllocated [] = Unit {0}
AllAllocated (d ∷ ds) = IsAllocated d × AllAllocated ds

-- No directory is empty: an empty one is a prefix of every path.
abbrev pub NoneEmpty : List String → Type 0
NoneEmpty [] = Unit {0}
NoneEmpty (d ∷ ds) = (contents d ≢ []) × NoneEmpty ds

-- The path starts with one of the directories.
abbrev pub Covered : List String → String → Type 0
Covered [] path = ⊥
Covered (d ∷ ds) path = StartsWith (contents d) (contents path) ⊎ Covered ds path

pub record AreDirs (dirs : Vector String) : Type 0 where
  pub valid : IsValid dirs
  pub allocated : AllAllocated (Vector.contents dirs)
  pub none_empty : NoneEmpty (Vector.contents dirs)

-- From index `i` on, the scan decides whether one of the next `n` directories covers the path.
scan_dirs-Decides :
    (n i : ℕ) (dirs : Vector String) (path : String)
    → i + n ≤ length dirs.elements
    → AllAllocated (take n (drop i dirs.elements))
    → IsAllocated path
    → Decides (scan_dirs n i dirs path) (Covered (take n (drop i dirs.elements)) path)
unfolding scan_dirs Vector.at
scan_dirs-Decides zero i dirs path h ds hp = (false, refl, (λ e. cc, λ e. absurd e))
scan_dirs-Decides (suc n) i dirs path h ds hp =
    let (d, at, rest) = drop-cons dirs.elements i (omega arith) in
    let both : AllAllocated (d ∷ take n (drop (suc i) dirs.elements)) =
      subst (λ l. AllAllocated (take (suc n) l)) rest ds in
    let (b, e, decided) = is_prefix_of-Decides d path both.0 hp in
    let (c, e', later) = scan_dirs-Decides n (suc i) dirs path (omega arith) both.1 hp in
    rw (at, e, e', rest) (either b c decided later)
  where
    either :
        {P Q : Type 0} (b c : Bool)
        → (b ≡ true) ↔ P
        → (c ≡ true) ↔ Q
        → Decides (if b then some true else some c) (P ⊎ Q)
    either true c p q = (true, refl, (λ _. inl (p.0 refl), λ _. refl))
    either false c p q = (
      c,
      refl,
      (
        λ e. inr (q.0 e),
        elim [ inl x ↦ let impossible : false ≡ true = p.1 x in cc | inr y ↦ q.1 y ],
      ),
    )

scan_dirs-null :
    (n i : ℕ) (dirs : Vector String)
    → i + n ≤ length dirs.elements
    → scan_dirs n i dirs empty_string ≡ some false
unfolding scan_dirs Vector.at
scan_dirs-null zero i dirs h = refl
scan_dirs-null (suc n) i dirs h =
    let (d, at, _) = drop-cons dirs.elements i (omega arith) in
    rw (at, is_prefix_of-null d, scan_dirs-null n (suc i) dirs (omega arith))

-- A path lies in a protected directory: it is not null, and starts with a directory of the list.
abbrev pub Protects : Vector String → String → Type 0
Protects dirs path = IsPath path × Covered (Vector.contents dirs) path

-- On a valid list of directories that have their blocks and are not empty, and a path that is sound,
-- `IsInProtectedDirectory` returns, and says true exactly when the path starts with the characters
-- of a directory of the list; for the null string that a failed lookup gives it says false.
pub is_in_protected_directory-Decides :
    (dirs : Vector String) (path : String)
    → AreDirs dirs
    → IsSound path
    → Decides (is_in_protected_directory dirs path) (Protects dirs path)
unfolding is_in_protected_directory
is_in_protected_directory-Decides dirs path h (inl e) = (
  false,
  rw (e, scan_dirs-null dirs.size 0 dirs (omega (arith, h.valid.fits, h.valid.real))),
  (λ t. cc, λ (named, _). absurd (not_a_path named)),
)
  where
    not_a_path : IsPath path → ⊥
    not_a_path named =
        let null_path : is_null path.elements ≡ true = ap (λ s. is_null s.elements) e in cc
is_in_protected_directory-Decides dirs path h (inr p) =
    let (b, e, decided) =
      scan_dirs-Decides dirs.size 0 dirs path (omega (arith, h.valid.fits, h.valid.real))
        h.allocated p in
    (b, e, (λ t. (p.not_null, decided.0 t), λ (_, c). decided.1 c))

-- No directory covers a path of no characters.
pub empty_uncovered :
    (ds : List String) (s : String) → NoneEmpty ds → contents s ≡ [] → Covered ds s → ⊥
empty_uncovered [] s named e c = elim c [ ]
empty_uncovered (d ∷ ds) s (full, more) e (inl (rest, split)) =
    full (no_front (contents d) rest (sym e ∙ split))
  where
    no_front : (xs ys : List ℕ) → [] ≡ xs ++ ys → xs ≡ []
    no_front [] ys e = refl
    no_front (x ∷ xs) ys e = cc
empty_uncovered (d ∷ ds) s (full, more) e (inr covered) = empty_uncovered ds s more e covered

pub Covered-same :
    (ds : List String) (s r : String) → contents s ≡ contents r → Covered ds s → Covered ds r
Covered-same [] s r e c = elim c [ ]
Covered-same (d ∷ ds) s r e (inl (rest, split)) = inl (rest, sym e ∙ split)
Covered-same (d ∷ ds) s r e (inr covered) = inr (Covered-same ds s r e covered)

-- A path lies in a protected directory exactly if its copy does.
pub Protects-copy :
    (dirs : Vector String) (s r : String)
    → AreDirs dirs
    → IsSound s
    → IsAllocated r
    → contents r ≡ contents s
    → Protects dirs s ↔ Protects dirs r
Protects-copy dirs s r h (inr p) p' e = (
  λ (_, c). (p'.not_null, Covered-same (Vector.contents dirs) s r (sym e) c),
  λ (_, c). (p.not_null, Covered-same (Vector.contents dirs) r s e c),
)
Protects-copy dirs s r h (inl null) p' e = (
  λ (named, _). absurd (not_a_path named),
  λ (_, c). absurd (empty_uncovered (Vector.contents dirs) r h.none_empty (e ∙ ap contents null) c),
)
  where
    not_a_path : IsPath s → ⊥
    not_a_path named =
        let null_path : is_null s.elements ≡ true = ap (λ s. is_null s.elements) null in cc

-- A sound string lies in its block.
pub IsSound-fits : (s : String) → IsSound s → s.size ≤ length (slots s)
IsSound-fits s (inl null) = rw null (omega arith)
IsSound-fits s (inr p) = omega (arith, p.fits)

-- ===== src/Map/Erased.antt =====
-- `Erase(key)` of driver/std/map/map.h, and `Find` after it.
use windows_kernel_events_tr.Prelude.{
  ℕ, suc, ◌^◌, ◌≤◌, ◌<◌, ◌≡◌, refl, sym, ◌∙◌, ap, true, false, some, if◌then◌else◌, ◌==◌, ==_iff,
  List, [], ◌∷◌, ◌++◌, arith, inl, inr, Bool-cases, length, subst,
}
use windows_kernel_events_tr.Map.Nodes.{State}
use windows_kernel_events_tr.Map.Removal.{erase}
use windows_kernel_events_tr.Map.Search.{find}
use windows_kernel_events_tr.Map.Shape.{Tree, entries}
use windows_kernel_events_tr.Map.Contents.{
  locate, has_key, after, From-le, From-append, Stands-From, after-From, has_key-From,
}
use windows_kernel_events_tr.Map.Relinking.{same_address}
use windows_kernel_events_tr.Map.Placing.{IsMap}
use windows_kernel_events_tr.Map.Lookups.{rounds, find-locates}
use windows_kernel_events_tr.Map.Iteration.{IsAt, IsAt-node}
use windows_kernel_events_tr.Map.Erasing.{IsErased, erase_at_lem}

module _ {V : Type 0} where
  -- The bindings but that of the key.
  unfoldable pub without : ℕ → List (ℕ × ℕ × V) → List (ℕ × ℕ × V)
  without k [] = []
  without k ((a, j, v) ∷ xs) = if j == k then xs else (a, j, v) ∷ without k xs

  -- Where the key is, in the list.
  pub record IsSplit (d k : ℕ) (es : List (ℕ × ℕ × V)) : Type 0 where
    pub xs : List (ℕ × ℕ × V)
    pub ys : List (ℕ × ℕ × V)
    pub a : ℕ
    pub v : V
    pub whole : es ≡ xs ++ ((a, k, v) ∷ ys)
    pub at : locate d k es ≡ a
    pub parts : without k es ≡ xs ++ ys
    pub first : has_key k xs ≡ false

  pub IsSplit-at : (d k : ℕ) (es : List (ℕ × ℕ × V)) → has_key k es ≡ true → IsSplit d k es
  unfolding locate has_key without
  IsSplit-at d k [] h = cc
  IsSplit-at d k ((a, j, v) ∷ es) h = elim (Bool-cases (j == k)) [
    | inl e ↦ record {
      xs = [];
      ys = es;
      a = a;
      v = v;
      whole = ap (λ i. (a, i, v) ∷ es) ((==_iff j k).0 e);
      at = rw (e) refl;
      parts = rw (e) refl;
      first = refl;
    }
    | inr e ↦
        let tail : has_key k es ≡ true = rw (e) at h in
        let inner = IsSplit-at d k es tail in
        record {
          xs = (a, j, v) ∷ inner.xs;
          ys = inner.ys;
          a = inner.a;
          v = inner.v;
          whole = ap (λ q. (a, j, v) ∷ q) inner.whole;
          at = rw (e) inner.at;
          parts = rw (e) (ap (λ q. (a, j, v) ∷ q) inner.parts);
          first = rw (e) inner.first;
        }
  ]

  pub absent_lem :
      (d k : ℕ) (es : List (ℕ × ℕ × V))
      → has_key k es ≡ false
      → (locate d k es ≡ d) × (without k es ≡ es)
  unfolding locate has_key without
  absent_lem d k [] h = (refl, refl)
  absent_lem d k ((a, j, v) ∷ es) h = elim (Bool-cases (j == k)) [
    | inl e ↦ let clash : true ≡ false = rw (e) at h in cc
    | inr e ↦
        let tail : has_key k es ≡ false = rw (e) at h in
        let (at, same) = absent_lem d k es tail in
        (rw (e) at, rw (e) (ap (λ q. (a, j, v) ∷ q) same))
  ]

  has_key-append :
      (k : ℕ) (xs ys : List (ℕ × ℕ × V))
      → has_key k xs ≡ false
      → has_key k (xs ++ ys) ≡ has_key k ys
  unfolding has_key
  has_key-append k [] ys h = refl
  has_key-append k ((a, j, v) ∷ xs) ys h = ground (arith, h, has_key-append k xs ys)

  locate-without :
      (d k j : ℕ) (es : List (ℕ × ℕ × V))
      → (k == j) ≡ false
      → locate d j (without k es) ≡ locate d j es
  unfolding locate without
  locate-without d k j [] differ = refl
  locate-without d k j ((a, i, v) ∷ es) differ = ground (arith, locate-without d k j es differ)

  pub length-without : (k : ℕ) (es : List (ℕ × ℕ × V)) → length (without k es) ≤ length es
  unfolding without
  length-without k [] = omega arith
  length-without k ((a, i, v) ∷ es) = ground (arith, length-without k es)

  -- No binding after that of the key has it again.
  later_keys :
      {s : State V} {t : Tree V} (k d : ℕ) {a : ℕ} {v : V} (xs ys : List (ℕ × ℕ × V))
      → IsAt s t (a, k, v) xs ys d
      → has_key k ys ≡ false
  later_keys {s} k d {a} xs ys at =
      subst (λ q. has_key k q ≡ false) at.on_right
        (has_key-From k (entries at.r ++ after at.path) (
          From-append (suc k) (entries at.r) (after at.path)
            (Stands-From s a at.r (suc k) _ at.focused.focus.4)
            (From-le _ (suc k) (after at.path) (at.focused.focus.2)
              (after-From s a at.path at.focused.around))))

  erase_known :
      {s : State V} {t : Tree V} (k : ℕ)
      → IsMap s t
      → length (entries t) < 2 ^ 64
      → has_key k (entries t) ≡ true
      → (e : IsErased s (without k (entries t)) (erase rounds k s)) × (e.result ≡ 1)
        × (has_key k (without k (entries t)) ≡ false)
  unfolding erase
  erase_known {s} {t} k m few known =
      let split = IsSplit-at s.nil k (entries t) known in
      let at = IsAt-node split.xs split.ys (split.a, k, split.v) m few split.whole in
      let gone = erase_at_lem split.xs split.ys split.a k split.v m few split.whole in
      let found : find rounds k s ≡ some split.a = find-locates k m few ∙ ap some split.at in
      (
        record {
          result = 1;
          state = gone.state;
          tree = gone.tree;
          returns = rw (found, at.focused.focus.0.1, gone.returns) refl;
          is_map = gone.is_map;
          same_nil = gone.same_nil;
          contents = gone.contents ∙ sym split.parts;
        },
        refl,
        rw (split.parts, has_key-append k split.xs split.ys split.first)
            (later_keys k 129 split.xs split.ys at),
      )

  erase_unknown :
      {s : State V} {t : Tree V} (k : ℕ)
      → IsMap s t
      → length (entries t) < 2 ^ 64
      → has_key k (entries t) ≡ false
      → (e : IsErased s (without k (entries t)) (erase rounds k s)) × (e.result ≡ 0)
        × (has_key k (without k (entries t)) ≡ false)
  unfolding erase
  erase_unknown {s} {t} k m few unknown =
      let (at_end, same) = absent_lem s.nil k (entries t) unknown in
      let found : find rounds k s ≡ some s.nil = find-locates k m few ∙ ap some at_end in
      (
        record {
          result = 0;
          state = s;
          tree = t;
          returns = rw (found, same_address s.nil) refl;
          is_map = m;
          same_nil = refl;
          contents = sym same;
        },
        refl,
        rw (same) unknown,
      )

  pub erase_lem :
      {s : State V} {t : Tree V} (k : ℕ)
      → IsMap s t
      → length (entries t) < 2 ^ 64
      → (e : IsErased s (without k (entries t)) (erase rounds k s)) × (e.result
          ≡ (if has_key k (entries t) then 1 else 0))
        × (has_key k (without k (entries t)) ≡ false)
  erase_lem {s} {t} k m few = elim (Bool-cases (has_key k (entries t))) [
    | inl known ↦
        let (e, one, gone) = erase_known k m few known in (e, one ∙ sym (rw (known) refl), gone)
    | inr unknown ↦
        let (e, none_gone, gone) = erase_unknown k m few unknown in
        (e, none_gone ∙ sym (rw (unknown) refl), gone)
  ]

  -- `Erase(k)` of a map of fewer than 2^64 nodes returns within 130 rounds, with 1 where the key was
  -- bound and 0 where it was not, and with a map of the bindings but that of the key; a search for `k`
  -- then ends at `End()`, and a search for any other key finds what it found before.
  pub find-erase :
      {s : State V} {t : Tree V} (k j : ℕ)
      → IsMap s t
      → length (entries t) < 2 ^ 64
      → (e : IsErased s (without k (entries t)) (erase rounds k s)) × (e.result
          ≡ (if has_key k (entries t) then 1 else 0))
        × (find rounds j e.state ≡ (if k == j then some s.nil else find rounds j s))
  find-erase {s} {t} k j m few =
      let (e, result, gone) = erase_lem k m few in
      let fewer : length (entries e.tree) < 2 ^ 64 =
        omega (arith, ap length e.contents, length-without k (entries t)) in
      let found : find rounds j e.state ≡ some (locate s.nil j (without k (entries t))) =
        find-locates j e.is_map fewer
        ∙ (ap (λ d. some (locate d j (entries e.tree))) e.same_nil
            ∙ ap (λ es. some (locate s.nil j es)) e.contents) in
      (
        e,
        result,
        found ∙ elim (Bool-cases (k == j)) [
          | inl same ↦ rw (same) (
              ap some (
                subst (λ i. locate s.nil i (without k (entries t)) ≡ s.nil) ((==_iff k j).0 same)
                  (absent_lem s.nil k (without k (entries t)) gone).0))
          | inr differ ↦
              rw (differ)
                (ap some (locate-without s.nil k j (entries t) differ) ∙ sym (find-locates j m few))
        ],
      )

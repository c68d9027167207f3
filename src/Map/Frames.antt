-- ===== src/Map/Frames.antt =====
-- What a store through a pointer leaves alone: the parts of the tree of driver/std/map/map.h whose
-- keys are not that of the node, and the sentinel.
use windows_kernel_events_tr.Prelude.{
  ℕ, suc, ◌≤◌, ◌<◌, ◌≡◌, ◌≢◌, refl, sym, ◌∙◌, ap, ◌⊎◌, inl, inr, Bool, false, Option, some, none,
  ◌==◌, ==_iff, Bool-cases, arith,
}
use windows_kernel_events_tr.Prelude.Maps.{put, put-same, put-other}
use windows_kernel_events_tr.Map.Nodes.{Node, State, write, painted}
use windows_kernel_events_tr.Map.Shape.{
  Tree, leaf, node, Context, top, left_of, right_of, low, high, Holds, Stands, StandsAround,
  IsFocused,
}

module _ {V : Type 0} where
  abbrev pub on : State V → (ℕ → Option (Node V)) → State V
  on s h = record s { nodes = h }

  -- From one store to the next the nodes with such keys stay, and so does the sentinel, and no node
  -- comes to stand where none stood.
  pub record Changes (nil : ℕ) (P : ℕ → Type 0) (h h' : ℕ → Option (Node V)) : Type 0 where
    pub keeps : (q : ℕ) (n : Node V) → Holds nil h q n → P n.key → h' q ≡ some n
    pub at_nil : h' nil ≡ h nil
    pub unused : (q : ℕ) → h q ≡ none → h' q ≡ none

  pub Changes-trans :
      {nil : ℕ} {P : ℕ → Type 0} {h h' h'' : ℕ → Option (Node V)}
      → Changes nil P h h'
      → Changes nil P h' h''
      → Changes nil P h h''
  Changes-trans c d = record {
    keeps = λ q n e p. d.keeps q n (c.keeps q n e p, e.1) p;
    at_nil = d.at_nil ∙ c.at_nil;
    unused = λ q e. d.unused q (c.unused q e);
  }

  pub Changes-weaken :
      {nil : ℕ} {P Q : ℕ → Type 0} {h h' : ℕ → Option (Node V)}
      → ((j : ℕ) → Q j → P j)
      → Changes nil P h h'
      → Changes nil Q h h'
  Changes-weaken w c = record {
    keeps = λ q n e p. c.keeps q n e (w n.key p);
    at_nil = c.at_nil;
    unused = c.unused;
  }

  pub Changes-refl : {nil : ℕ} {P : ℕ → Type 0} (h : ℕ → Option (Node V)) → Changes nil P h h
  Changes-refl h = record { keeps = λ q n e p. e.0; at_nil = refl; unused = λ q e. e }

  -- A tree stands on where its keys are among those kept.
  pub Stands-kept :
      (nil : ℕ) {P : ℕ → Type 0} {h h' : ℕ → Option (Node V)} (p : ℕ) (t : Tree V) (lo hi : ℕ)
      → ((j : ℕ) → lo ≤ j → j < hi → P j)
      → ((q : ℕ) (n : Node V) → Holds nil h q n → P n.key → h' q ≡ some n)
      → Stands nil h p t lo hi
      → Stands nil h' p t lo hi
  Stands-kept nil p leaf lo hi inside keeps st = tt
  Stands-kept nil p (node l a k v r t) lo hi inside keeps (held, above_lo, below_hi, sl, sr) = (
    (keeps a _ held (inside k above_lo below_hi), held.1),
    above_lo,
    below_hi,
    Stands-kept nil a l lo k (λ j x y. inside j x (omega arith)) keeps sl,
    Stands-kept nil a t (suc k) hi (λ j x y. inside j (omega arith) y) keeps sr,
  )

  pub Stands-keep :
      {nil : ℕ} {P : ℕ → Type 0} {h h' : ℕ → Option (Node V)} (p : ℕ) (t : Tree V) (lo hi : ℕ)
      → ((j : ℕ) → lo ≤ j → j < hi → P j)
      → Changes nil P h h'
      → Stands nil h p t lo hi
      → Stands nil h' p t lo hi
  Stands-keep {nil} p t lo hi inside c st = Stands-kept nil p t lo hi inside c.keeps st

  -- So does what lies around a subtree, whose keys are outside the bounds.
  pub StandsAround-kept :
      (nil : ℕ) {P : ℕ → Type 0} {h h' : ℕ → Option (Node V)} (f : ℕ) (p : Context V)
      → ((j : ℕ) → (j < low p) ⊎ (high p ≤ j) → P j)
      → ((q : ℕ) (n : Node V) → Holds nil h q n → P n.key → h' q ≡ some n)
      → StandsAround nil h f p
      → StandsAround nil h' f p
  StandsAround-kept nil f top outside keeps st = tt
  StandsAround-kept nil f (left_of a k v r t up) outside keeps
        (held, above_lo, below_hi, st, around) =
      (
        (keeps a _ held (outside k (inr (omega arith))), held.1),
        above_lo,
        below_hi,
        Stands-kept nil a t (suc k) (high up) (λ j x y. outside j (inr (omega arith))) keeps st,
        StandsAround-kept nil a up
            (λ j out. outside j (elim out [ inl x ↦ inl x | inr x ↦ inr (omega arith) ])) keeps
            around,
      )
  StandsAround-kept nil f (right_of l a k v r up) outside keeps
        (held, above_lo, below_hi, st, around) =
      (
        (keeps a _ held (outside k (inl (omega arith))), held.1),
        above_lo,
        below_hi,
        Stands-kept nil a l (low up) k (λ j x y. outside j (inl (omega arith))) keeps st,
        StandsAround-kept nil a up
            (λ j out. outside j (elim out [ inl x ↦ inl (omega arith) | inr x ↦ inr x ])) keeps
            around,
      )

  pub StandsAround-keep :
      {nil : ℕ} {P : ℕ → Type 0} {h h' : ℕ → Option (Node V)} (f : ℕ) (p : Context V)
      → ((j : ℕ) → (j < low p) ⊎ (high p ≤ j) → P j)
      → Changes nil P h h'
      → StandsAround nil h f p
      → StandsAround nil h' f p
  StandsAround-keep {nil} f p outside c st = StandsAround-kept nil f p outside c.keeps st

  abbrev key_or : Option (Node V) → ℕ
  key_or none = 0
  key_or (some n) = n.key

  -- Two nodes with different keys have different addresses.
  pub apart :
      (h : ℕ → Option (Node V)) (a b : ℕ) (n m : Node V)
      → h a ≡ some n
      → h b ≡ some m
      → n.key ≢ m.key
      → (a == b) ≡ false
  apart h a b n m ea eb differ = elim (Bool-cases (a == b)) [
    | inr e ↦ e
    | inl e ↦ absurd (differ (ap key_or (sym ea ∙ ap h ((==_iff a b).0 e) ∙ eb)))
  ]

  pub unused_apart :
      (h : ℕ → Option (Node V)) (a b : ℕ) (n : Node V)
      → h a ≡ some n
      → h b ≡ none
      → (a == b) ≡ false
  unused_apart h a b n ea eb = elim (Bool-cases (a == b)) [
    | inr e ↦ e
    | inl e ↦ let clash : some n ≡ none = sym ea ∙ ap h ((==_iff a b).0 e) ∙ eb in cc
  ]

  -- A store through a pointer to a node.
  pub write_lem :
      (s : State V) (p : ℕ) (f : Node V → Node V) (n : Node V)
      → Holds s.nil s.nodes p n
      → (h : ℕ → Option (Node V)) × (write p f s ≡ some (on s h))
        × Holds s.nil h p (f n)
        × Changes s.nil (λ j. j ≢ n.key) s.nodes h
  unfolding write
  write_lem s p f n held = (
    put p (f n) s.nodes,
    rw (held.0),
    (put-same p (f n) s.nodes, held.1),
    record {
      keeps = λ q m e differ.
          put-other p q (f n) s.nodes
            (apart s.nodes p q n m held.0 e.0 (λ (x : n.key ≡ m.key). differ (sym x)))
          ∙ e.0;
      at_nil = put-other p s.nil (f n) s.nodes held.1;
      unused = λ q e. put-other p q (f n) s.nodes (unused_apart s.nodes p q n held.0 e) ∙ e;
    },
  )

  -- The focus moves to a child, and back.
  pub into_left :
      {s : State V} {l r : Tree V} {a k : ℕ} {v : V} {c : Bool} {p : Context V}
      → IsFocused s (node l a k v c r) p
      → IsFocused s l (left_of a k v c r p)
  into_left {s} f =
      let (held, above_lo, below_hi, sl, sr) = f.focus in
      record {
        sentinel = f.sentinel;
        at_nil = f.at_nil;
        black = f.black;
        rooted = f.rooted;
        focus = sl;
        around = (held, above_lo, below_hi, sr, f.around);
        unused = f.unused;
      }

  pub into_right :
      {s : State V} {l r : Tree V} {a k : ℕ} {v : V} {c : Bool} {p : Context V}
      → IsFocused s (node l a k v c r) p
      → IsFocused s r (right_of l a k v c p)
  into_right {s} f =
      let (held, above_lo, below_hi, sl, sr) = f.focus in
      record {
        sentinel = f.sentinel;
        at_nil = f.at_nil;
        black = f.black;
        rooted = f.rooted;
        focus = sr;
        around = (held, above_lo, below_hi, sl, f.around);
        unused = f.unused;
      }

  pub from_left :
      {s : State V} {l r : Tree V} {a k : ℕ} {v : V} {c : Bool} {p : Context V}
      → IsFocused s l (left_of a k v c r p)
      → IsFocused s (node l a k v c r) p
  from_left {s} f =
      let (held, above_lo, below_hi, sr, around) = f.around in
      record {
        sentinel = f.sentinel;
        at_nil = f.at_nil;
        black = f.black;
        rooted = f.rooted;
        focus = (held, above_lo, below_hi, f.focus, sr);
        around = around;
        unused = f.unused;
      }

  pub from_right :
      {s : State V} {l r : Tree V} {a k : ℕ} {v : V} {c : Bool} {p : Context V}
      → IsFocused s r (right_of l a k v c p)
      → IsFocused s (node l a k v c r) p
  from_right {s} f =
      let (held, above_lo, below_hi, sl, around) = f.around in
      record {
        sentinel = f.sentinel;
        at_nil = f.at_nil;
        black = f.black;
        rooted = f.rooted;
        focus = (held, above_lo, below_hi, sl, f.focus);
        around = around;
        unused = f.unused;
      }

  -- Painting the node in focus.
  pub paint_lem :
      {s : State V} {l r : Tree V} {a k : ℕ} {v : V} {c : Bool} {p : Context V} (c' : Bool)
      → IsFocused s (node l a k v c r) p
      → (h : ℕ → Option (Node V)) × (write a (painted c') s ≡ some (on s h))
        × IsFocused (on s h) (node l a k v c' r) p
        × (h s.nil ≡ s.nodes s.nil)
  paint_lem {s} {l} {r} {a} {k} {v} {c} {p} c' f =
      let (held, above_lo, below_hi, sl, sr) = f.focus in
      let (h, e, held', changes) = write_lem s a (painted c') _ held in
      (
        h,
        e,
        record {
          sentinel = f.sentinel;
          at_nil = changes.at_nil ∙ f.at_nil;
          black = f.black;
          rooted = f.rooted;
          focus = (
            held',
            above_lo,
            below_hi,
            Stands-keep a l (low p) k (λ j x y e. absurd (omega (arith, e))) changes sl,
            Stands-keep a r (suc k) (high p) (λ j x y e. absurd (omega (arith, e))) changes sr,
          );
          around =
              StandsAround-keep a p
                (λ j x e. absurd (elim x [ inl y ↦ omega (arith, e) | inr y ↦ omega (arith, e) ]))
                changes f.around;
          unused = λ q x. changes.unused q (f.unused q x);
        },
        changes.at_nil,
      )

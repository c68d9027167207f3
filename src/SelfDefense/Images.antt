-- ===== src/SelfDefense/Images.antt =====
-- The names that `GetProcessImageName` of self_defense.cpp takes from the kernel.
use windows_kernel_events_tr.Prelude.{
  ℕ, ◌≡◌, inl, inr, refl, Option, some, none, true, Returns, Bool-cases,
}
use windows_kernel_events_tr.Memory.{Element}
use windows_kernel_events_tr.Strings.{UnicodeString, empty_string, assign_unicode}
use windows_kernel_events_tr.Strings.Unicode.{IsCounted, contents-assign_unicode}
use windows_kernel_events_tr.SelfDefense.Model.{Kernel, locate_image, queried_image}
use windows_kernel_events_tr.SelfDefense.Protection.{IsSound}

-- What the kernel answers with are counted strings.
pub record IsTrusted (kernel : Kernel) : Type 0 where
  pub located : (pid : ℕ) (u : UnicodeString) → kernel.locate pid ≡ some (some u) → IsCounted u
  pub queried : (pid : ℕ) (u : UnicodeString) → kernel.query pid ≡ some u → IsCounted u

module _ (element : Element ℕ) (kernel : Kernel) (trusted : IsTrusted kernel) where
  assign_unicode-IsSound :
      (u : UnicodeString) → IsCounted u → Returns (assign_unicode element (some u)) IsSound
  assign_unicode-IsSound u h =
      let (s, e, (allocated, _)) = contents-assign_unicode element u h in (s, e, inr allocated)

  null-IsSound : Returns (some empty_string) IsSound
  null-IsSound = (empty_string, refl, inl refl)

  queried-IsSound :
      (pid : ℕ) (o : Option UnicodeString)
      → kernel.query pid ≡ o
      → Returns (queried_image element kernel pid) IsSound
  unfolding queried_image
  queried-IsSound pid o e = elim (Bool-cases kernel.query_resolved) [
    | inl resolved ↦ elim (Bool-cases (kernel.open_object pid)) [
      | inl opened ↦ rw (resolved, opened) (answer o e)
      | inr closed ↦ rw (resolved, closed) null-IsSound
    ]
    | inr unresolved ↦ rw unresolved null-IsSound
  ]
    where
      answer :
          (o : Option UnicodeString)
          → kernel.query pid ≡ o
          → Returns
              (elim (kernel.query pid) [
                | some image_name ↦ assign_unicode element (some image_name)
                | none ↦ some empty_string
              ])
              IsSound
      answer (some u) e = rw e (assign_unicode-IsSound u (trusted.queried pid u e))
      answer none e = rw e null-IsSound

  located-IsSound :
      (pid : ℕ) (o : Option (Option UnicodeString))
      → kernel.locate pid ≡ o
      → kernel.lookup pid ≡ true
      → Returns (locate_image element kernel pid) IsSound
  unfolding locate_image assign_unicode
  located-IsSound pid (some (some u)) e present =
      rw (present, e) (assign_unicode-IsSound u (trusted.located pid u e))
  located-IsSound pid (some none) e present = rw (present, e) null-IsSound
  located-IsSound pid none e present = rw (present, e) (queried-IsSound pid (kernel.query pid) refl)

  -- If the kernel's names are counted strings, `GetProcessImageName` past the cache always returns: the
  -- null string, or one that has its block.
  pub locate_image-IsSound : (pid : ℕ) → Returns (locate_image element kernel pid) IsSound
  unfolding locate_image
  locate_image-IsSound pid = elim (Bool-cases (kernel.lookup pid)) [
    | inl present ↦ located-IsSound pid (kernel.locate pid) refl present
    | inr absent ↦ rw absent null-IsSound
  ]

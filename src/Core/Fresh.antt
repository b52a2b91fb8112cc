-- ===== src/Core/Fresh.antt =====
-- An instance that stands as a new one would be created: what the closing and the creating of a
-- single component keep of that.
use plux_mtx.Base.{ℕ, Bool, true, false, ◌≡◌, refl, sym, ap, ◌∙◌, subst, some, none, arith}
use plux_mtx.Core.State.{Slot, id_of, filled}
use plux_mtx.Core.Reload.{closed, reloaded}

-- There is an instance exactly if the component is enabled, with these settings, as far as `view`
-- sees them.
abbrev pub Fresh : {S T : Type 0} → (S → T) → Bool → S → Slot S → Type 0
Fresh view enabled w none = enabled ≡ false
Fresh view enabled w (some i) = (enabled ≡ true) × (view i.settings ≡ view w)

module _ {S T : Type 0} (view : S → T) where
  pub filled-Fresh :
      (enabled : Bool) (w : S) (n : ℕ) → Fresh view enabled w (filled enabled w n none)
  unfolding filled
  filled-Fresh true w n = (refl, refl)
  filled-Fresh false w n = refl

  Fresh-filled_id :
      (enabled : Bool) (w v : S) (n : ℕ) (o : Slot S)
      → Fresh view enabled v o
      → filled enabled w n o ≡ o
  unfolding filled
  Fresh-filled_id enabled w v n none h = ground arith
  Fresh-filled_id enabled w v n (some i) h = refl

  Fresh-change :
      (enabled' enabled : Bool) (w' w : S) (o : Slot S)
      → enabled' ≡ enabled
      → view w' ≡ view w
      → Fresh view enabled w o
      → Fresh view enabled' w' o
  Fresh-change enabled' enabled w' w none e v h = e ∙ h
  Fresh-change enabled' enabled w' w (some i) e v h = (e ∙ h.0, h.1 ∙ sym v)

  -- A component that is created anew if it has been closed, and else stands as before.
  pub renewed-Fresh :
      (b enabled' enabled : Bool) (w' w : S) (n : ℕ) (o : Slot S)
      → Fresh view enabled w o
      → (b ≡ false → (enabled' ≡ enabled) × (view w' ≡ view w))
      → Fresh view enabled' w' (filled enabled' w' n (closed b o))
  unfolding closed
  renewed-Fresh true enabled' enabled w' w n o h s = filled-Fresh enabled' w' n
  renewed-Fresh false enabled' enabled w' w n o h s =
      subst (Fresh view enabled' w')
        (sym (
          Fresh-filled_id enabled' w' w' n o
            (Fresh-change enabled' enabled w' w o (s refl).0 (s refl).1 h)))
        (Fresh-change enabled' enabled w' w o (s refl).0 (s refl).1 h)

  pub renewed_id :
      (b enabled' enabled : Bool) (w' w : S) (n : ℕ) (o : Slot S)
      → Fresh view enabled w o
      → (b ≡ false → (enabled' ≡ enabled) × (view w' ≡ view w))
      → b ≡ false
      → id_of (filled enabled' w' n (closed b o)) ≡ id_of o
  unfolding closed
  renewed_id true enabled' enabled w' w n o h s e = cc
  renewed_id false enabled' enabled w' w n o h s e = ap id_of (
      Fresh-filled_id enabled' w' w' n o
        (Fresh-change enabled' enabled w' w o (s refl).0 (s refl).1 h))

module _ {S : Type 0} where
  pub reloaded-Fresh :
      (b enabled : Bool) (f : S → S) (w v : S) (o : Slot S)
      → (b ≡ true → f w ≡ v)
      → (b ≡ false → w ≡ v)
      → Fresh (λ s. s) enabled w o
      → Fresh (λ s. s) enabled v (reloaded b f o)
  unfolding reloaded
  reloaded-Fresh b enabled f w v none t e h = h
  reloaded-Fresh true enabled f w v (some i) t e h = (h.0, ap f h.1 ∙ t refl)
  reloaded-Fresh false enabled f w v (some i) t e h = (h.0, h.1 ∙ e refl)

  pub reloaded_id : (b : Bool) (f : S → S) (o : Slot S) → id_of (reloaded b f o) ≡ id_of o
  unfolding reloaded
  reloaded_id b f none = refl
  reloaded_id true f (some i) = refl
  reloaded_id false f (some i) = refl

module _ {S T : Type 0} (view : S → T) where
  -- The two together, of the slot after a reload.
  pub renewed :
      (b enabled' enabled : Bool) (w' w : S) (n : ℕ) (o slot : Slot S)
      → slot ≡ filled enabled' w' n (closed b o)
      → Fresh view enabled w o
      → (b ≡ false → (enabled' ≡ enabled) × (view w' ≡ view w))
      → Fresh view enabled' w' slot × (b ≡ false → id_of slot ≡ id_of o)
  renewed b enabled' enabled w' w n o slot e h s = (
    subst (Fresh view enabled' w') (sym e) (renewed-Fresh view b enabled' enabled w' w n o h s),
    λ k. ap id_of e ∙ renewed_id view b enabled' enabled w' w n o h s k,
  )

-- ===== src/Record/Removal.antt =====
-- internal/recordcleaner/cleaner.go: which files the cleaner removes.
use plux_mtx.Base.{
  ℕ, ◌-◌, ◌+◌, ◌≤◌, String, Bool, true, false, ◌≡◌, refl, ◌↔◌, inl, inr, ◌==◌, ◌==s◌, if◌then◌else◌,
  Option, some, none, List, [], ◌∷◌, arith, text_eq, text_refl, Bool-cases, ap, subst, sym, ◌∙◌,
}
use plux_mtx.Conf.PathConf.{PathConf}
use plux_mtx.Conf.Find.{PathConfs, Found, found, not_found, find_path_conf}
use plux_mtx.Record.Segments.{Segment, find_segments, starts_by}
use plux_mtx.Record.Sorting.{Among}
use plux_mtx.Record.Window.{find_segments-all, IsRecorded}
use plux_mtx.Record.Cleaner.{
  remove_file, remove_segments, remove_found, delete_expired_segments, process_found, process_path,
  do_run,
}

remove_file-Among :
    (f g : String) (files : List String)
    → Among g (remove_file f files) ↔ (Among g files × ¬ (f ≡ g))
unfolding remove_file
remove_file-Among f g [] = (λ m. elim m [ ], λ p. p.0)
remove_file-Among f g (x ∷ xs) = go (x ==s f) refl (remove_file-Among f g xs)
  where
    go :
        (b : Bool)
        → (x ==s f) ≡ b
        → (Among g (remove_file f xs) ↔ (Among g xs × ¬ (f ≡ g)))
        → Among g (if b then remove_file f xs else x ∷ remove_file f xs)
          ↔ (Among g (x ∷ xs) × ¬ (f ≡ g))
    go true e ih = (
      λ m. let (n, h) = ih.0 m in (inr n, h),
      λ p. elim p.0 [ inl q ↦ absurd (p.1 (sym (text_eq x f e) ∙ q)) | inr n ↦ ih.1 (n, p.1) ],
    )
    go false e ih = (
      λ m. elim m [
        | inl q ↦ (
          inl q,
          λ k. let l : true ≡ false = sym (text_refl x) ∙ ap (λ y. x ==s y) (q ∙ sym k) ∙ e in cc,
        )
        | inr n ↦ let (n', h) = ih.0 n in (inr n', h)
      ],
      λ p. elim p.0 [ inl q ↦ inl q | inr n ↦ inr (ih.1 (n, p.1)) ],
    )

remove_segments-Among :
    (g : String) (ss : List Segment) (files : List String)
    → Among g (remove_segments ss files)
      ↔ (Among g files × ((s : Segment) → Among s ss → ¬ (s.fpath ≡ g)))
unfolding remove_segments
remove_segments-Among g [] files = (λ m. (m, λ s n. elim n [ ]), λ p. p.0)
remove_segments-Among g (s ∷ ss) files =
    let ih = remove_segments-Among g ss (remove_file s.fpath files) in
    let one = remove_file-Among s.fpath g files in
    (
      λ m.
          let (n, h) = ih.0 m in
          let (l, k) = one.0 n in
          (
            l,
            λ t q. elim q [ inl e ↦ subst (λ (y : Segment). ¬ (y.fpath ≡ g)) e k | inr r ↦ h t r ],
          ),
      λ p. ih.1 (one.1 (p.0, p.1 s (inl refl)), λ t r. p.1 t (inr r)),
    )

-- The file is a segment of the path, and as old as its configuration says or older.
abbrev pub IsExpired : (String → Option ℕ) → ℕ → ℕ → String → Type 0
IsExpired decode now after f = (start : ℕ) × (decode f ≡ some start) × (start + after ≤ now)

starts_by-IsExpired :
    (now after start : ℕ)
    → after ≤ now
    → (starts_by (some (now - after)) start ≡ true) ↔ (start + after ≤ now)
unfolding starts_by
starts_by-IsExpired now after start h = (λ e. ground arith, λ e. ground arith)

module _ (decode : String → Option ℕ) (now after : ℕ) (recent : after ≤ now)
    (files : List String) where
  expired-IsRecorded :
      (f : String)
      → Among f files
      → IsExpired decode now after f
      → (x : Segment) × (x.fpath ≡ f) × IsRecorded decode (some (now - after)) files x
  expired-IsRecorded f m (start, e, l) = (
    record { fpath = f; start = start },
    refl,
    (m, e, (starts_by-IsExpired now after start recent).1 l),
  )

  recorded-IsExpired :
      (x : Segment)
      → IsRecorded decode (some (now - after)) files x
      → IsExpired decode now after x.fpath
  recorded-IsExpired x r = (x.start, r.1, (starts_by-IsExpired now after x.start recent).0 r.2)

  remove_found-IsExpired :
      (f : String)
      → Among f (remove_found (find_segments decode (some files) none (some (now - after))) files)
        ↔ (Among f files × ¬ IsExpired decode now after f)
  unfolding remove_found
  remove_found-IsExpired f = elim (find_segments-all decode (some (now - after)) files) [
    | inl a ↦ rw a.0 (λ m. (m, λ e. let r = expired-IsRecorded f m e in a.1 r.0 r.2), λ p. p.0)
    | inr a ↦
        let s = remove_segments-Among f a.0 files in
        rw a.1 (
          λ m.
              let (n, h) = s.0 m in
              (n, λ e. let r = expired-IsRecorded f n e in h r.0 ((a.2 r.0).1 r.2) r.1),
          λ p. s.1 (
            p.0,
            λ x q k.
                p.1 (subst (IsExpired decode now after) k (recorded-IsExpired x ((a.2 x).0 q))),
          ),
        )
  ]

module _ (decode : PathConf → String → String → Option ℕ) where
  -- The cleaner removes from the files of a path exactly the segments of the path that are as old as the
  -- configuration says, or older: if that age is not before Go's zero time.
  pub delete_expired_segments-IsExpired :
      (now : ℕ) (name : String) (c : PathConf) (files : List String) (f : String)
      → c.record_delete_after ≤ now
      → Among f (delete_expired_segments decode now name c files)
        ↔ (Among f files × ¬ IsExpired (decode c name) now c.record_delete_after f)
  unfolding delete_expired_segments
  delete_expired_segments-IsExpired now name c files f h =
      remove_found-IsExpired (decode c name) now c.record_delete_after h files f

  -- What the cleaner may remove of a path: its configuration has an age, and the file is that old.
  abbrev pub IsRemovable : ℕ → String → Found → String → Type 0
  IsRemovable now name (not_found e) f = ⊥
  IsRemovable now name (found c groups) f =
      ¬ (c.record_delete_after ≡ 0) × IsExpired (decode c name) now c.record_delete_after f

  abbrev pub IsRecent : ℕ → Found → Type 0
  IsRecent now (not_found e) = Unit
  IsRecent now (found c groups) = c.record_delete_after ≤ now

  process_found-IsRemovable :
      (now : ℕ) (name : String) (r : Found) (files : List String) (f : String)
      → IsRecent now r
      → Among f (process_found decode now name r files)
        ↔ (Among f files × ¬ IsRemovable now name r f)
  unfolding process_found
  process_found-IsRemovable now name (not_found e) files f h = (λ m. (m, λ k. k), λ p. p.0)
  process_found-IsRemovable now name (found c groups) files f h =
      let d = delete_expired_segments-IsExpired now name c files f h in
      elim (Bool-cases (c.record_delete_after == 0)) [
        | inl e ↦ rw e (λ m. (m, λ k. k.0 (ground arith)), λ p. p.0)
        | inr e ↦ rw e (
          λ m. let (n, k) = d.0 m in (n, λ q. k q.1),
          λ p. d.1 (p.0, λ q. p.1 ((λ z. ground arith), q)),
        )
      ]

  module _ (submatch : String → String → Option (List String)) (confs : PathConfs) (now : ℕ) where
    -- A run of the cleaner removes a file exactly if, for one of the paths that have segments, the
    -- configuration that the path's name is looked up to has an age, and the file is a segment of
    -- the path of that age or older.
    pub do_run-IsRemovable :
        (names files : List String) (f : String)
        → ((name : String) → Among name names → IsRecent now (find_path_conf submatch confs name))
        → Among f (do_run decode submatch confs now names files) ↔ (
            Among f files
            × ((name : String)
                → Among name names
                → ¬ IsRemovable now name (find_path_conf submatch confs name) f))
    unfolding do_run process_path
    do_run-IsRemovable [] files f h = (λ m. (m, λ n k. elim k [ ]), λ p. p.0)
    do_run-IsRemovable (name ∷ names) files f h =
        let first =
          process_found-IsRemovable now name (find_path_conf submatch confs name) files f
            (h name (inl refl)) in
        let rest =
          do_run-IsRemovable names (process_path decode submatch confs now name files) f
            (λ n m. h n (inr m)) in
        (
          λ m.
              let (n, k) = rest.0 m in
              let (l, g) = first.0 n in
              (
                l,
                λ x q. elim q [
                  | inl e ↦ subst (λ y. ¬ IsRemovable now y (find_path_conf submatch confs y) f) e g
                  | inr r ↦ k x r
                ],
              ),
          λ p. rest.1 (first.1 (p.0, p.1 name (inl refl)), λ x r. p.1 x (inr r)),
        )

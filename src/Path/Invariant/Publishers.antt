-- ===== src/Path/Invariant/Publishers.antt =====
-- The invariant through doAddPublisher.
use plux_mtx.Base.{
  ℕ, String, ◌==s◌, ◌≡◌, refl, Bool, true, not, Option, some, none, [], arith, Ensures,
  Ensures-bind, Ensures-if, subst, ◌>>=◌, is_some, ap, sym, ◌∙◌,
}
use plux_mtx.Conf.PathConf.{PathConf}
use plux_mtx.Conf.Flags.{source_tests}
use plux_mtx.Path.State.{
  CorePath, Desc, Source, AddPublisherReq, emit, as_publisher, redirect, handler, publisher,
  publisher_close,
}
use plux_mtx.Path.Ready.{execute_remove_publisher}
use plux_mtx.Path.Handlers.{publisher_is_ready, publish, replace_publisher, do_add_publisher}
use plux_mtx.Path.Exact.{not_ready_out, set_not_ready_lem}
use plux_mtx.Path.Invariant.{Inv}
use plux_mtx.Path.Invariant.Requests.{out-Inv}
use plux_mtx.Path.Invariant.Timers.{released}
use plux_mtx.Path.Invariant.Sources.{unpublished-Inv, consume-Inv, now_ready, set_ready_lem}

published-Inv :
    (a : ℕ) (query : String) (desc : Desc) (g f : Bool) (now : ℕ) (p : CorePath)
    → p.source ≡ none
    → (p.conf.source ==s "publisher") ≡ true
    → Inv p
    → let q : CorePath = record p { source = some (publisher a); publisher_query = query } in
      Inv (released (publisher_is_ready (now_ready desc g f now q)) [])
unfolding publisher_is_ready
published-Inv a query desc g f now p k c v = ground (arith, source_tests p.conf)

publish-Inv :
    (req : AddPublisherReq) (p : CorePath)
    → p.source ≡ none
    → (p.conf.source ==s "publisher") ≡ true
    → req.desc.initializes ≡ true
    → Inv p
    → Ensures Inv (publish req p)
unfolding publish
publish-Inv req p k c i v =
    let q : CorePath = record p {
      source = some (publisher req.author);
      publisher_query = req.query;
    } in
    rw (set_ready_lem req.desc req.generate_rtp_packets req.fill_ntp req.now q i refl) (
      out-Inv _ _ (
        consume-Inv (publisher_is_ready (now_ready req.desc _ _ req.now q))
          (unfold publisher_is_ready in ground arith)
          (published-Inv req.author req.query req.desc _ _ req.now p k c v)))

-- The kind of the source of a path that is configured for publishers.
publisher_or_none :
    (p : CorePath)
    → (p.conf.source ==s "publisher") ≡ true
    → is_some p.source ≡ true
    → Inv p
    → (a : ℕ) × (p.source ≡ some (publisher a))
publisher_or_none p c s v = go p.source refl
  where
    go : (t : Option Source) → p.source ≡ t → (a : ℕ) × (p.source ≡ some (publisher a))
    go none e = cc
    go (some redirect) e = absurd (ground (arith, source_tests p.conf))
    go (some (handler r)) e = absurd (ground (arith, source_tests p.conf))
    go (some (publisher a)) e = (a, e)

abbrev IsVacant : PathConf → CorePath → Type 0
IsVacant c p = Inv p × (p.source ≡ none) × (p.conf ≡ c)

removed-IsVacant :
    (p : CorePath) (a : ℕ)
    → p.source ≡ some (publisher a)
    → Inv p
    → Ensures (IsVacant p.conf) (execute_remove_publisher p)
unfolding execute_remove_publisher
removed-IsVacant p a k v =
    let s : is_some p.stream ≡ true = v.demanded.publisher_streams (rw k) in
    rw s (
      rw (set_not_ready_lem p (v.serving.hook_set s))
        (unpublished-Inv p a (not_ready_out p) k v, refl, refl))

replace_publisher-IsVacant :
    (p : CorePath) (a : ℕ)
    → p.source ≡ some (publisher a)
    → Inv p
    → Ensures (IsVacant p.conf) (replace_publisher p)
unfolding replace_publisher
replace_publisher-IsVacant p a k v =
    subst
      (λ o.
        Ensures (IsVacant p.conf)
          (as_publisher o >>= (λ old. execute_remove_publisher (emit (publisher_close old) p))))
      (sym k) (removed-IsVacant (emit (publisher_close a) p) a k (out-Inv _ p v))

pub do_add_publisher-Inv :
    (req : AddPublisherReq) (p : CorePath)
    → req.desc.initializes ≡ true
    → Inv p
    → Ensures Inv (do_add_publisher req p)
unfolding do_add_publisher
do_add_publisher-Inv req p i v =
    Ensures-if Inv (not (p.conf.source ==s "publisher")) _ _ (λ e. out-Inv _ p v)
      (λ e.
        let c : (p.conf.source ==s "publisher") ≡ true = ground arith in
        Ensures-if Inv (is_some p.source) _ _
          (λ s.
            Ensures-if Inv p.conf.override_publisher _ _
              (λ r.
                let (a, k) = publisher_or_none p c s v in
                Ensures-bind (IsVacant p.conf) Inv _ _ (replace_publisher-IsVacant p a k v) (λ q w.
                  publish-Inv req q w.1 (ap (λ (d : PathConf). d.source ==s "publisher") w.2 ∙ c) i
                    w.0))
              (λ r. out-Inv _ p v))
          (λ s. publish-Inv req p (ground arith) c i v))

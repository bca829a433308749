-- ===== src/Proxy/Listeners.antt =====
-- Listed proxies and the accept loops that run (djinn/crates/coordin8-proxy/src/manager.rs).
use Prim.Native.String.{◌++◌ as concat}
use coordin.Common.{
  ℕ, zero, suc, String, Bool, true, false, Option, none, some, List, [], ◌∷◌, Result, ok, err, Exec,
  continue, ◌>>=◌, is_some, Bool-cases, ◌||◌, All, ◌==◌, ◌≡◌, refl, arith, Option-cases, inl, inr,
  eq_iff,
}
use coordin.Common.Text.{strip_prefix}
use coordin.Common.Dict
use coordin.Common.Dict.{Dict, get-remove, get-insert}
use coordin.Error.{Method}
use coordin.Lease.{LeaseRecord, LeaseReclaimed}
use coordin.Lease.Leasing.{Leasing}
use coordin.Registry.{RegistryEntry}
use coordin.Proxy.Manager.{
  ProxyManager, ProxyError, ProxyEntry, Sockets, Resolver, on_leases, on_registry, shut_down,
  loop_ended, spawned, started, handle_reclaimed, try_ports, bind_listener, port_to_try, port_after,
  or_else, io_error, resolve, or_not_found, open_proxy, close,
}

module _ {L R W : Type 0} where
  -- An accept loop that runs belongs to a listed proxy or has been told to stop, and a listed proxy has
  -- an accept loop that runs, unless that may have ended before the proxy was listed.
  pub record IsServed (may_end_early : String → Bool) (s : ProxyManager L R W) : Type 0 where
    pub stoppable :
        (id : String)
        → is_some (Dict.get id s.listening) ≡ true
        → (is_some (Dict.get id s.proxies) || is_some (Dict.get id s.signalled)) ≡ true
    pub backed :
        (id : String)
        → may_end_early id ≡ false
        → is_some (Dict.get id s.proxies) ≡ true
        → is_some (Dict.get id s.listening) ≡ true

module _ {L R W : Type 0} (early : String → Bool) where
  abbrev Keeps : {A : Type 0} → Exec ProxyError (ProxyManager L R W) A → Type 0
  Keeps m = (s : ProxyManager L R W) → IsServed early s → IsServed early (m s).1

  continue-Keeps :
      {A B : Type 0} (r : Result ProxyError A) (f : A → Exec ProxyError (ProxyManager L R W) B)
      → ((a : A) → Keeps (f a))
      → (s : ProxyManager L R W) → IsServed early s
      → IsServed early (continue r f s).1
  continue-Keeps (ok a) f h s w = h a s w
  continue-Keeps (err e) f h s w = w

  bind-Keeps :
      {A B : Type 0} (m : Exec ProxyError (ProxyManager L R W) A)
      (f : A → Exec ProxyError (ProxyManager L R W) B)
      → Keeps m
      → ((a : A) → Keeps (f a))
      → Keeps (m >>= f)
  bind-Keeps m f g h s w = continue-Keeps (m s).0 f h (m s).1 (g s w)

  shut_down-IsServed :
      (id : String) → (s : ProxyManager L R W) → IsServed early s → IsServed early (shut_down id s)
  shut_down-IsServed id s w = record {
    stoppable = λ j h.
        rw (get-remove id j s.proxies, get-insert id j tt s.signalled)
          (elim (Bool-cases (id == j)) [ inl e ↦ rw e refl | inr e ↦ rw e (w.stoppable j h) ]);
    backed = λ j p h. w.backed j p (elim (Bool-cases (id == j)) [
      | inl e ↦ let gone : false ≡ true = rw (get-remove id j s.proxies, e) at h in cc
      | inr e ↦ rw (get-remove id j s.proxies, e) at h
    ]);
  }

  loop_ended-IsServed :
      (id : String) → (s : ProxyManager L R W) → IsServed early s → IsServed early (loop_ended id s)
  unfolding loop_ended
  loop_ended-IsServed id s w = record {
    stoppable = λ j h. elim (Bool-cases (id == j)) [
      | inl e ↦ let gone : false ≡ true = rw (get-remove id j s.listening, e) at h in cc
      | inr e ↦
          rw (get-remove id j s.proxies, get-remove id j s.signalled, e)
            (w.stoppable j (rw (get-remove id j s.listening, e) at h))
    ];
    backed = λ j p h. elim (Bool-cases (id == j)) [
      | inl e ↦ let gone : false ≡ true = rw (get-remove id j s.proxies, e) at h in cc
      | inr e ↦
          rw (get-remove id j s.listening, e)
            (w.backed j p (rw (get-remove id j s.proxies, e) at h))
    ];
  }

  -- A proxy is listed once its accept loop is spawned.
  put-IsServed :
      (id : String) (e : ProxyEntry) (port : ℕ) (s : ProxyManager L R W)
      → IsServed early s
      → IsServed early (record s {
        listening = Dict.insert id port s.listening;
        proxies = Dict.insert id e s.proxies;
      })
  put-IsServed id v port s w = record {
    stoppable = λ j h. elim (Bool-cases (id == j)) [
      | inl e ↦ rw (get-insert id j v s.proxies, e) refl
      | inr e ↦
          rw (get-insert id j v s.proxies, e)
            (w.stoppable j (rw (get-insert id j port s.listening, e) at h))
    ];
    backed = λ j p h. elim (Bool-cases (id == j)) [
      | inl e ↦ rw (get-insert id j port s.listening, e) refl
      | inr e ↦
          rw (get-insert id j port s.listening, e)
            (w.backed j p (rw (get-insert id j v s.proxies, e) at h))
    ];
  }

  -- A proxy is listed though its accept loop has ended.
  late-IsServed :
      (id : String) (v : ProxyEntry) (s : ProxyManager L R W)
      → early id ≡ true
      → IsServed early s
      → IsServed early (record s { proxies = Dict.insert id v s.proxies })
  late-IsServed id v s named w = record {
    stoppable = λ j h. elim (Bool-cases (id == j)) [
      | inl e ↦ rw (get-insert id j v s.proxies, e) refl
      | inr e ↦ rw (get-insert id j v s.proxies, e) (w.stoppable j h)
    ];
    backed = λ j p h. elim (Bool-cases (id == j)) [
      | inl e ↦
          let id_eq : id ≡ j = (eq_iff id j).0 e in
          let both : early j ≡ true = rw (← id_eq) named in absurd (ground arith)
      | inr e ↦ w.backed j p (rw (get-insert id j v s.proxies, e) at h)
    ];
  }

  on_leases-Keeps : {A : Type 0} (m : Method L A) → Keeps (on_leases m)
  on_leases-Keeps m s w = record { stoppable = w.stoppable; backed = w.backed }

  on_registry-Keeps : {A : Type 0} (m : Method R A) → Keeps (on_registry m)
  on_registry-Keeps m s w = record { stoppable = w.stoppable; backed = w.backed }

  or_not_found-Keeps :
      {A : Type 0} (template : Dict String) (o : Option A) → Keeps (or_not_found template o)
  or_not_found-Keeps template none s w = w
  or_not_found-Keeps template (some a) s w = w

  handle_reclaimed-IsServed :
      (event : LeaseReclaimed) (s : ProxyManager L R W)
      → IsServed early s
      → IsServed early (handle_reclaimed event s)
  unfolding handle_reclaimed
  handle_reclaimed-IsServed event s w =
      elim (Option-cases (strip_prefix "proxy:" event.lease_record.resource_id)) [
        | inl e ↦ rw (e, handle_reclaimed) w
        | inr (id, e) ↦ elim (Option-cases (Dict.get id s.proxies)) [
          | inl x ↦ rw (e, handle_reclaimed, x) w
          | inr (entry, x) ↦ rw (e, handle_reclaimed, x) (shut_down-IsServed id s w)
        ]
      ]

  or_else-IsServed :
      (r : Result String ℕ) (s : ProxyManager L R W) (rest : Exec ProxyError (ProxyManager L R W) ℕ)
      → IsServed early s
      → Keeps rest
      → IsServed early (or_else (r, s) rest).1
  or_else-IsServed (ok k) s rest w h = w
  or_else-IsServed (err e) s rest w h = h s w

  io_error-IsServed :
      (r : Result String ℕ) (s : ProxyManager L R W)
      → IsServed early s
      → IsServed early (io_error (r, s)).1
  io_error-IsServed (ok k) s w = w
  io_error-IsServed (err e) s w = w

module _ {L R W : Type 0} (early : String → Bool) (net : Sockets W) where
  try_ports-Keeps : (n min max : ℕ) → Keeps {L = L} {R = R} {W = W} early (try_ports net n min max)
  unfolding try_ports
  try_ports-Keeps zero min max s w = w
  try_ports-Keeps (suc n) min max s w =
      let port = port_to_try min max s.next_port in
      or_else-IsServed early (net.bind s.config.bind_host port s.sockets).0
        (record s {
          sockets = (net.bind s.config.bind_host port s.sockets).1;
          next_port = port_after min max port;
        })
        (try_ports net n min max) (record { stoppable = w.stoppable; backed = w.backed })
        (try_ports-Keeps n min max)

  bind_listener-Keeps : Keeps {L = L} {R = R} {W = W} early (bind_listener net)
  unfolding bind_listener
  bind_listener-Keeps s w = elim (Option-cases s.config.port_range) [
    | inl e ↦
        rw (e, bind_listener)
          (io_error-IsServed early (net.bind s.config.bind_host 0 s.sockets).0
            (record s { sockets = (net.bind s.config.bind_host 0 s.sockets).1 })
            (record { stoppable = w.stoppable; backed = w.backed }))
    | inr (range, e) ↦ rw (e, bind_listener) (try_ports-Keeps _ range.0 range.1 s w)
  ]

module _ {L R W : Type 0} (early : String → Bool) (leasing : Leasing L) (resolver : Resolver R)
    (net : Sockets W) where
  resolve-Keeps :
      (template : Dict String)
      → Keeps {L = L} {R = R} {W = W} early (resolve leasing resolver net template)
  unfolding resolve
  resolve-Keeps template =
      bind-Keeps early (on_registry (resolver.resolve template)) _
        (on_registry-Keeps early (resolver.resolve template))
        (λ found.
          bind-Keeps early (or_not_found template found) _ (or_not_found-Keeps early template found)
            (λ (entry : RegistryEntry).
              bind-Keeps early (or_not_found template entry.transport) _
                (or_not_found-Keeps early template entry.transport) (λ t s w. w)))

  -- The accept loop is spawned and ends at once.
  ended_early :
      (uuid : String) (port : ℕ) (s : ProxyManager L R W)
      → IsServed early s
      → IsServed early (loop_ended uuid (spawned leasing resolver net uuid port s))
  unfolding loop_ended
  ended_early uuid port s w = record {
    stoppable = λ j h. elim (Bool-cases (uuid == j)) [
      | inl e ↦
          let gone : false ≡ true =
            rw (get-remove uuid j (Dict.insert uuid port s.listening), e) at h in
          cc
      | inr e ↦
          rw (get-remove uuid j s.proxies, get-remove uuid j s.signalled, e)
            (w.stoppable j (
              rw
                (
                  get-remove uuid j (Dict.insert uuid port s.listening),
                  get-insert uuid j port s.listening,
                  e,
                )
                at h))
    ];
    backed = λ j p h. elim (Bool-cases (uuid == j)) [
      | inl e ↦ let gone : false ≡ true = rw (get-remove uuid j s.proxies, e) at h in cc
      | inr e ↦
          rw
            (
              get-remove uuid j (Dict.insert uuid port s.listening),
              get-insert uuid j port s.listening,
              e,
            )
            (w.backed j p (rw (get-remove uuid j s.proxies, e) at h))
    ];
  }

  started-Keeps :
      (ends : Bool) (uuid : String) (port : ℕ) (lease : LeaseRecord)
      → (ends ≡ true → early uuid ≡ true)
      → Keeps {L = L} {R = R} {W = W} early (started leasing resolver net ends uuid port lease)
  started-Keeps false uuid port lease h s w = put-IsServed early uuid _ port s w
  started-Keeps true uuid port lease h s w =
      late-IsServed early uuid _ (loop_ended uuid (spawned leasing resolver net uuid port s))
        (h refl) (ended_early uuid port s w)

  open_proxy-Keeps :
      (ends : Bool) (uuid : String) (template : Dict String) (ttl : ℕ)
      → (ends ≡ true → early uuid ≡ true)
      → Keeps early (open_proxy leasing resolver net ends uuid template ttl)
  unfolding open_proxy
  open_proxy-Keeps ends uuid template ttl h =
      bind-Keeps early (resolve leasing resolver net template) _ (resolve-Keeps template)
        (λ address. bind-Keeps early (bind_listener net) _ (bind_listener-Keeps early net) (λ port.
          bind-Keeps early (on_leases (leasing.grant (concat "proxy:" uuid) ttl)) _
            (on_leases-Keeps early (leasing.grant (concat "proxy:" uuid) ttl))
            (λ lease. started-Keeps ends uuid port lease h)))

  close-Keeps : (id : String) → Keeps early (close leasing resolver net id)
  unfolding close
  close-Keeps id s w = elim (Option-cases (Dict.get id s.proxies)) [
    | inl e ↦ rw (e, close) w
    | inr (entry, e) ↦
        rw (e, close)
          (on_leases-Keeps early (leasing.cancel entry.lease_id) _
            (shut_down-IsServed early id s w))
  ]

-- What happens to the proxies: an opening tells whether its accept loop ends before its proxy is listed.
pub data Event : Type 0 where
  opens : Bool → String → Dict String → ℕ → Event
  closes ends : String → Event
  reclaims : LeaseReclaimed → Event

-- The loop of an opening ends early only where it may.
abbrev pub Allowed : (String → Bool) → Event → Type 0
Allowed early (opens ends_early uuid template ttl) = ends_early ≡ true → early uuid ≡ true
Allowed early _ = Unit

module _ {L R W : Type 0} (leasing : Leasing L) (resolver : Resolver R) (net : Sockets W) where
  abbrev pub step : Event → ProxyManager L R W → ProxyManager L R W
  step (opens ends_early uuid template ttl) s =
      (open_proxy leasing resolver net ends_early uuid template ttl s).1
  step (closes id) s = (close leasing resolver net id s).1
  step (ends id) s = loop_ended id s
  step (reclaims event) s = handle_reclaimed event s

  abbrev pub run : List Event → ProxyManager L R W → ProxyManager L R W
  run [] s = s
  run (e ∷ es) s = run es (step e s)

  module _ (early : String → Bool) where
    step-IsServed :
        (e : Event) (s : ProxyManager L R W)
        → Allowed early e
        → IsServed early s
        → IsServed early (step e s)
    step-IsServed (opens ends_early uuid template ttl) s h w =
        open_proxy-Keeps early leasing resolver net ends_early uuid template ttl h s w
    step-IsServed (closes id) s h w = close-Keeps early leasing resolver net id s w
    step-IsServed (ends id) s h w = loop_ended-IsServed early id s w
    step-IsServed (reclaims event) s h w = handle_reclaimed-IsServed early event s w

    -- Through any opening and closing of proxies, reclaiming of their leases and ending of their
    -- accept loops: a loop that runs belongs to a listed proxy or has been told to stop, and a listed
    -- proxy has a loop that runs, except where its loop may have ended before the proxy was listed, if
    -- so at the start.
    pub run-IsServed :
        (es : List Event) (s : ProxyManager L R W)
        → All (Allowed early) es
        → IsServed early s
        → IsServed early (run es s)
    run-IsServed [] s h w = w
    run-IsServed (e ∷ es) s h w = run-IsServed es (step e s) h.1 (step-IsServed e s h.0 w)

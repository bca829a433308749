-- ===== src/Proxy/Ports.antt =====
-- The port that a proxy listens on (`bind_listener` of djinn/crates/coordin8-proxy/src/manager.rs).
use coordin.Common.{
  ℕ, zero, suc, ◌+◌, ◌-◌, ◌≤◌, ◌<◌, String, some, Result, ok, err, leb, if◌then◌else◌, ◌≡◌, ◌≢◌,
  refl, sym, subst, ◌∙◌, arith, Result-cases, inl, inr,
}
use coordin.Proxy.Manager.{
  ProxyManager, ProxyError, Sockets, port_to_try, port_after, try_ports, bind_listener,
}

-- The next port to try lies in the range.
pub record IsWithin {L R W : Type 0} (min max : ℕ) (s : ProxyManager L R W) : Type 0 where
  pub above : min ≤ s.next_port
  pub below : s.next_port ≤ max

module _ (min max : ℕ) where
  -- How many attempts come before the one at `p`, when the next one is at `next`.
  abbrev distance : ℕ → ℕ → ℕ
  distance next p = if leb next p then p - next else p + (max + 1 - min) - next

  -- Both ends of the range are tried, and the first one after the last.
  to_try_within : (next : ℕ) → next ≤ max → port_to_try min max next ≡ next
  to_try_within next le = ground arith

  after_within :
      (port : ℕ)
      → min ≤ port
      → port ≤ max
      → (min ≤ port_after min max port) × (port_after min max port ≤ max)
  after_within port a b = ground arith

  distance_step :
      (n next p : ℕ)
      → min ≤ next
      → next ≤ max
      → min ≤ p
      → p ≤ max
      → next ≢ p
      → distance next p < suc n
      → distance (port_after min max next) p < n
  distance_step n next p a b c d e f = ground arith

  distance_bound :
      (next p : ℕ) → min ≤ next → next ≤ max → min ≤ p → p ≤ max → distance next p < max + 1 - min
  distance_bound next p a b c d = ground arith

-- A listener on a port other than 0 has that port.
abbrev pub IsExact : {W : Type 0} → Sockets W → Type 0
IsExact {W} net =
    (host : String) (port : ℕ) (w : W) (k : ℕ)
    → port ≢ 0
    → (net.bind host port w).0 ≡ ok k
    → k ≡ port

none_below : (n : ℕ) → n < 0 → ⊥
none_below n h = omega arith

ok_err : {k : ℕ} {text : String} {r : Result String ℕ} → r ≡ ok k → r ≡ err text → ⊥
ok_err a b = cc

module _ {L R W : Type 0} (net : Sockets W) (min max : ℕ) where
  -- The state in which an attempt binds.
  abbrev attempted : ProxyManager L R W → ProxyManager L R W
  attempted s = record s {
    next_port = port_after min max (port_to_try min max s.next_port);
    sockets = (net.bind s.config.bind_host (port_to_try min max s.next_port) s.sockets).1;
  }

  try_ports-bound :
      (n k : ℕ) (s : ProxyManager L R W)
      → (net.bind s.config.bind_host (port_to_try min max s.next_port) s.sockets).0 ≡ ok k
      → try_ports net (suc n) min max s ≡ (ok k, attempted s)
  unfolding try_ports
  try_ports-bound n k s e = rw (try_ports, e) refl

  try_ports-next :
      (n : ℕ) (text : String) (s : ProxyManager L R W)
      → (net.bind s.config.bind_host (port_to_try min max s.next_port) s.sockets).0 ≡ err text
      → try_ports net (suc n) min max s ≡ try_ports net n min max (attempted s)
  unfolding try_ports
  try_ports-next n text s e = rw (try_ports, e) refl

  attempted-IsWithin :
      (s : ProxyManager L R W) → IsWithin min max s → IsWithin min max (attempted s)
  attempted-IsWithin s w =
      let after = after_within min max s.next_port w.above w.below in
      let tried = to_try_within min max s.next_port w.below in
      record {
        above = subst (λ k. min ≤ port_after min max k) (sym tried) after.0;
        below = subst (λ k. port_after min max k ≤ max) (sym tried) after.1;
      }

  in_range :
      (k j : ℕ) (s : ProxyManager L R W)
      → IsExact net
      → 1 ≤ min
      → IsWithin min max s
      → (net.bind s.config.bind_host (port_to_try min max s.next_port) s.sockets).0 ≡ ok k
      → ◌≡◌ {A = Result ProxyError ℕ} (ok k) (ok j)
      → (min ≤ j) × (j ≤ max)
  in_range k j s x o w e q =
      let same : k ≡ j = cc in
      let tried = to_try_within min max s.next_port w.below in
      let bound : k ≡ port_to_try min max s.next_port =
        x s.config.bind_host (port_to_try min max s.next_port) s.sockets k (ground arith) e in
      subst (λ i. (min ≤ i) × (i ≤ max)) (sym tried ∙ sym bound ∙ same) (w.above, w.below)

  try_ports-InRange :
      (n : ℕ) (s : ProxyManager L R W)
      → IsExact net
      → 1 ≤ min
      → IsWithin min max s
      → IsWithin min max (try_ports net n min max s).1
        × ((k : ℕ) → (try_ports net n min max s).0 ≡ ok k → (min ≤ k) × (k ≤ max))
  unfolding try_ports
  try_ports-InRange zero s x o w = (w, λ k e. cc)
  try_ports-InRange (suc n) s x o w =
      elim (Result-cases
        (net.bind s.config.bind_host (port_to_try min max s.next_port) s.sockets).0) [
          | inl (k, e) ↦
              rw (try_ports-bound n k s e) (attempted-IsWithin s w, λ j q. in_range k j s x o w e q)
          | inr (text, e) ↦
              rw (try_ports-next n text s e)
                (try_ports-InRange n (attempted s) x o (attempted-IsWithin s w))
        ]

  closer :
      (n p : ℕ) (text : String) (s : ProxyManager L R W)
      → ((w : W) → (k : ℕ) × ((net.bind s.config.bind_host p w).0 ≡ ok k))
      → min ≤ p
      → p ≤ max
      → IsWithin min max s
      → distance min max s.next_port p < suc n
      → (net.bind s.config.bind_host (port_to_try min max s.next_port) s.sockets).0 ≡ err text
      → distance min max (attempted s).next_port p < n
  closer n p text s free a b w d e =
      let tried = to_try_within min max s.next_port w.below in
      let other : s.next_port ≢ p = λ same.
        let failed =
          subst (λ i. (net.bind s.config.bind_host i s.sockets).0 ≡ err text) (tried ∙ same) e in
        ok_err (free s.sockets).1 failed in
      subst (λ i. distance min max (port_after min max i) p < n) (sym tried)
        (distance_step min max n s.next_port p w.above w.below a b other d)

  try_ports-finds :
      (n p : ℕ) (s : ProxyManager L R W)
      → ((w : W) → (k : ℕ) × ((net.bind s.config.bind_host p w).0 ≡ ok k))
      → min ≤ p
      → p ≤ max
      → IsWithin min max s
      → distance min max s.next_port p < n
      → (k : ℕ) × ((try_ports net n min max s).0 ≡ ok k)
  try_ports-finds zero p s free a b w d = elim (none_below _ d) [ ]
  try_ports-finds (suc n) p s free a b w d =
      elim (Result-cases
        (net.bind s.config.bind_host (port_to_try min max s.next_port) s.sockets).0) [
          | inl (k, e) ↦ (k, rw (try_ports-bound n k s e) refl)
          | inr (text, e) ↦ rw (try_ports-next n text s e) (
              try_ports-finds n p (attempted s) free a b (attempted-IsWithin s w)
                (closer n p text s free a b w d e))
        ]

module _ {L R W : Type 0} (net : Sockets W) where
  -- Where a range of ports is configured, and a port of it is always free, a port is bound, wherever in
  -- the range the next attempt starts.
  pub bind_listener-finds :
      (min max p : ℕ) (s : ProxyManager L R W)
      → s.config.port_range ≡ some (min, max)
      → IsWithin min max s
      → min ≤ p
      → p ≤ max
      → ((w : W) → (k : ℕ) × ((net.bind s.config.bind_host p w).0 ≡ ok k))
      → (k : ℕ) × ((bind_listener net s).0 ≡ ok k)
  unfolding bind_listener
  bind_listener-finds min max p s e w a b free =
      rw (e, bind_listener)
        (try_ports-finds net min max (max + 1 - min) p s free a b w
          (distance_bound min max s.next_port p w.above w.below a b))

  -- Where a range of ports above 0 is configured and the next port to try is in it, a port that is
  -- bound is in it, and so is the port to try after that, also if none is bound.
  pub bind_listener-InRange :
      (min max : ℕ) (s : ProxyManager L R W)
      → s.config.port_range ≡ some (min, max)
      → IsExact net
      → 1 ≤ min
      → IsWithin min max s
      → IsWithin min max (bind_listener net s).1
        × ((k : ℕ) → (bind_listener net s).0 ≡ ok k → (min ≤ k) × (k ≤ max))
  unfolding bind_listener
  bind_listener-InRange min max s e x o w =
      rw (e, bind_listener) (try_ports-InRange net min max (max + 1 - min) s x o w)

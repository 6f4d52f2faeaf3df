-- ===== src/Agent/Discovery/Complete.antt =====
-- discovery.go: whatever is registered stands in the index.
use claw_hermes_ai_go.Base.{
  ℕ, ◌-◌, ◌<◌, ◌≡◌, refl, sym, ap, subst, inl, inr, Bool, true, false, ◌&&◌, some, List, [], ◌∷◌,
  String, str_eq, ltb, ◌==◌, arith, Bool-cases, Option-cases, some_inj, some-ne-none,
}
use claw_hermes_ai_go.Base.Dict.{Dict, lookup, lookup-insert, lookup-erase}
use claw_hermes_ai_go.Agent.Orchestrator.{AgentIdentity}
use claw_hermes_ai_go.Agent.Discovery.{
  Op, registers, unregisters, beats, subscribes, unsubscribes, cleans, step, run, PeerInfo,
  DiscoveryService, new_discovery_service, put, notify_event, new_peer, register_peer, remove_peer,
  unregister_peer, update_heartbeat, subscribe, unsubscribe, cleanup_loop, cleanup,
}
use claw_hermes_ai_go.Agent.Discovery.Index.{
  indexed, listed, indexed-index_all, indexed-unindex_all,
}

-- Every registered peer stands in the index under each of its capabilities, and its pointer is made.
pub record IsComplete (d : DiscoveryService) : Type 0 where
  pub in_index :
      (id c : String) (p : ℕ)
      → lookup id d.peers ≡ some p
      → listed c (d.heap p).capabilities ≡ true
      → indexed d.capabilities c id ≡ some p
  pub is_made : (id : String) (p : ℕ) → lookup id d.peers ≡ some p → p < d.made

put_self : (heap : ℕ → PeerInfo) (p : ℕ) (peer : PeerInfo) → put heap p peer p ≡ peer
unfolding put
put_self heap p peer = ground arith

put_ne : (heap : ℕ → PeerInfo) (p q : ℕ) (peer : PeerInfo) → q < p → put heap p peer q ≡ heap q
unfolding put
put_ne heap p q peer lt = ground arith

and_false : (b : Bool) → b && false ≡ false
and_false true = refl
and_false false = refl

register-IsComplete :
    (d : DiscoveryService) (identity : AgentIdentity) (caps : List String) (now : ℕ)
    → IsComplete d
    → IsComplete (register_peer d identity caps now)
unfolding register_peer notify_event new_peer
register-IsComplete d identity caps now h = record {
  in_index = λ id c p there has_cap. elim (Bool-cases (str_eq identity.id id)) [
    | inl same ↦
        let q : d.made ≡ p =
          some_inj (rw (lookup-insert identity.id id d.made d.peers, same) at there) in
        let pointed : put d.heap d.made (new_peer identity caps now) p
            ≡ new_peer identity caps now =
          subst (λ x. put d.heap d.made (new_peer identity caps now) x ≡ new_peer identity caps now)
            q (put_self d.heap d.made (new_peer identity caps now)) in
        let has_it : listed c caps ≡ true =
          subst (λ (x : PeerInfo). listed c x.capabilities ≡ true) pointed has_cap in
        rw (indexed-index_all d.capabilities identity.id id c d.made caps, has_it, same) (ap some q)
    | inr other ↦
        let before : lookup id d.peers ≡ some p =
          rw (lookup-insert identity.id id d.made d.peers, other) at there in
        let kept = put_ne d.heap d.made p (new_peer identity caps now) (h.is_made id p before) in
        let has_it : listed c (d.heap p).capabilities ≡ true =
          subst (λ (x : PeerInfo). listed c x.capabilities ≡ true) kept has_cap in
        rw
          (
            indexed-index_all d.capabilities identity.id id c d.made caps,
            other,
            and_false (listed c caps),
          )
          (h.in_index id c p before has_it)
  ];
  is_made = λ id p there. elim (Bool-cases (str_eq identity.id id)) [
    | inl same ↦
        let q : d.made ≡ p =
          some_inj (rw (lookup-insert identity.id id d.made d.peers, same) at there) in
        omega arith
    | inr other ↦
        let before : lookup id d.peers ≡ some p =
          rw (lookup-insert identity.id id d.made d.peers, other) at there in
        let lt = h.is_made id p before in omega arith
  ];
}

remove-IsComplete :
    (d : DiscoveryService) (gone : String) (p : ℕ)
    → IsComplete d
    → IsComplete (remove_peer d gone p)
unfolding remove_peer notify_event
remove-IsComplete d gone p h = record {
  in_index = λ id c q there has_cap. elim (Bool-cases (str_eq gone id)) [
    | inl same ↦ absurd (some-ne-none (sym (rw (lookup-erase gone id d.peers, same) at there)))
    | inr other ↦
        rw
          (
            indexed-unindex_all d.capabilities gone id c (d.heap p).capabilities,
            other,
            and_false (listed c (d.heap p).capabilities),
          )
          (h.in_index id c q (rw (lookup-erase gone id d.peers, other) at there) has_cap)
  ];
  is_made = λ id q there. elim (Bool-cases (str_eq gone id)) [
    | inl same ↦ absurd (some-ne-none (sym (rw (lookup-erase gone id d.peers, same) at there)))
    | inr other ↦ h.is_made id q (rw (lookup-erase gone id d.peers, other) at there)
  ];
}

unregister-IsComplete :
    (d : DiscoveryService) (id : String) → IsComplete d → IsComplete (unregister_peer d id)
unfolding unregister_peer
unregister-IsComplete d id h = elim (Option-cases (lookup id d.peers)) [
  | inl e ↦ rw (e, unregister_peer) h
  | inr (p, e) ↦ rw (e, unregister_peer) (remove-IsComplete d id p h)
]

put_caps :
    (heap : ℕ → PeerInfo) (p q now : ℕ)
    → (put heap p (record (heap p) { last_seen = now }) q).capabilities ≡ (heap q).capabilities
unfolding put
put_caps heap p q now = elim (Bool-cases (p == q)) [
  | inl e ↦ let same : p ≡ q = ground arith in rw e (ap (λ x. (heap x).capabilities) same)
  | inr e ↦ rw e refl
]

beat-IsComplete :
    (d : DiscoveryService) (id : String) (now : ℕ)
    → IsComplete d
    → IsComplete (update_heartbeat d id now)
unfolding update_heartbeat
beat-IsComplete d id now h = elim (Option-cases (lookup id d.peers)) [
  | inl e ↦ rw (e, update_heartbeat) h
  | inr (p, e) ↦
      rw (e, update_heartbeat)
        (record {
          in_index = λ i c q there has_cap.
              h.in_index i c q there
                (subst (λ cs. listed c cs ≡ true) (put_caps d.heap p q now) has_cap);
          is_made = h.is_made;
        })
]

cleanup_loop-IsComplete :
    (timeout now : ℕ) (ps : Dict ℕ) (d : DiscoveryService)
    → IsComplete d
    → IsComplete (cleanup_loop timeout now ps d)
unfolding cleanup_loop
cleanup_loop-IsComplete timeout now [] d h = h
cleanup_loop-IsComplete timeout now ((id, p) ∷ ps) d h =
    elim (Bool-cases (ltb timeout (now - (d.heap p).last_seen))) [
      | inl e ↦
          rw e (
            cleanup_loop-IsComplete timeout now ps (remove_peer d id p)
              (remove-IsComplete d id p h))
      | inr e ↦ rw e (cleanup_loop-IsComplete timeout now ps d h)
    ]

step-IsComplete : (d : DiscoveryService) (op : Op) → IsComplete d → IsComplete (step d op)
unfolding step subscribe unsubscribe cleanup
step-IsComplete d (registers identity caps now) h = register-IsComplete d identity caps now h
step-IsComplete d (unregisters id) h = unregister-IsComplete d id h
step-IsComplete d (beats id now) h = beat-IsComplete d id now h
step-IsComplete d (subscribes chan) h = record { in_index = h.in_index; is_made = h.is_made }
step-IsComplete d (unsubscribes chan) h = record { in_index = h.in_index; is_made = h.is_made }
step-IsComplete d (cleans timeout now) h = cleanup_loop-IsComplete timeout now d.peers d h

pub run-IsComplete : (d : DiscoveryService) (ops : List Op) → IsComplete d → IsComplete (run d ops)
unfolding run
run-IsComplete d [] h = h
run-IsComplete d (op ∷ ops) h = run-IsComplete (step d op) ops (step-IsComplete d op h)

pub new-IsComplete : IsComplete new_discovery_service
unfolding new_discovery_service lookup
new-IsComplete = record {
  in_index = λ i c q e. absurd (some-ne-none (sym e));
  is_made = λ i q e. absurd (some-ne-none (sym e));
}

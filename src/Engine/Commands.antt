-- ===== src/Engine/Commands.antt =====
-- src/engine.cpp: what drain_commands() keeps true.
use xrune.Base.{
  ℕ, ◌<◌, ◌≡◌, ◌≢◌, refl, sym, ap, subst, true, false, not, ◌&&◌, List, [], ◌∷◌, ◌++◌, ◌==◌, ltb,
  leb, length, get_or, set, keep, member, All, All-append, Bool-cases, inl, inr, arith,
  get_or-modify_self, get_or-replicate, length-keep, length-append, member_snoc, Distinct-snoc,
  ==_iff, length-modify,
}
use xrune.Manager.{InstanceHandle, InstanceManager}
use xrune.Engine.{
  CommandType, CommandEvent, ActiveRoute, EndReason, TelemetryEvent, Engine, erase, is_active,
  touches, route_of, add_route, remove_route, activate_slot, release_slot, handle_command,
  route_matches, drain_commands, init_engine,
}
use xrune.Engine.Active.{
  IsLive, IsProper, IsRouted, member-erase_ne, member-erase_self, Distinct-erase, All-IsLive-set,
  All-IsLive-release, All-keep, is_active-Active, get_or-set_other, get_or-clear_self,
}

module _ {I S T : Type 0} (set_param : I → ℕ → ℕ → S → I)
    (try_enqueue : T → TelemetryEvent → T) where
  init-IsRouted :
      (mgr : InstanceManager I S) (n capacity : ℕ) (queue : T)
      → IsRouted (init_engine mgr n capacity queue)
  unfolding init_engine
  init-IsRouted mgr n capacity queue = record {
    distinct = tt;
    listed = λ i. ground (arith, get_or-replicate {A = ℕ} n i 0);
    live = tt;
    room = omega arith;
  }

  activate-IsRouted :
      (h : InstanceHandle) (e : Engine I S T)
      → 0 < h.generation
      → IsRouted e
      → IsRouted (activate_slot h e)
  unfolding activate_slot
  activate-IsRouted h e p v =
      elim (Bool-cases (ltb h.slot (length e.active_gen) && get_or e.active_gen h.slot 0 == 0)) [
        | inr off ↦ rw off v
        | inl on ↦ rw on (record {
          distinct =
              Distinct-snoc e.active_list h.slot v.distinct (ground (arith, v.listed h.slot));
          listed = λ i. elim (Bool-cases (h.slot == i)) [
            | inl same ↦
                subst
                  (λ (j : ℕ).
                    member j (e.active_list ++ h.slot ∷ [])
                    ≡ not (get_or (set e.active_gen h.slot h.generation) j 0 == 0))
                  ((==_iff h.slot i).0 same)
                  (ground (
                    arith,
                    member_snoc h.slot h.slot e.active_list,
                    get_or-modify_self e.active_gen h.slot (λ _. h.generation) 0,
                  ))
            | inr other ↦ ground (
              arith,
              member_snoc i h.slot e.active_list,
              v.listed i,
              get_or-set_other e.active_gen h.slot h.generation i
                  (λ (q : h.slot ≡ i). ground arith),
            )
          ];
          live = All-IsLive-set e.active_gen h.slot h.generation e.routes (ground arith) v.live;
          room = v.room;
        })
      ]

  pub release-IsRouted :
      (slot : ℕ) (why : EndReason) (e : Engine I S T)
      → IsRouted e
      → IsRouted (release_slot try_enqueue slot why e)
  unfolding release_slot
  release-IsRouted slot why e v = record {
    distinct = Distinct-erase slot e.active_list v.distinct;
    listed = λ i. elim (Bool-cases (slot == i)) [
      | inl same ↦
          subst
            (λ (j : ℕ).
              member j (erase slot e.active_list) ≡ not (get_or (set e.active_gen slot 0) j 0 == 0))
            ((==_iff slot i).0 same)
            (ground (
              arith,
              member-erase_self slot e.active_list v.distinct,
              get_or-clear_self e.active_gen slot,
            ))
      | inr other ↦
          let ne : slot ≢ i = λ (q : slot ≡ i). ground arith in
          ground (
            arith,
            member-erase_ne slot i e.active_list ne,
            v.listed i,
            get_or-set_other e.active_gen slot 0 i ne,
          )
    ];
    live = All-IsLive-release e.active_gen slot e.routes v.live;
    room = omega (arith, v.room, length-keep (λ (r : ActiveRoute). not (touches slot r)) e.routes);
  }

  -- The route that a connect command adds is live.
  route_of-IsLive :
      (cmd : CommandEvent S) (gens : List ℕ)
      → IsProper cmd
      → is_active gens cmd.handle ≡ true
      → (not cmd.dest.to_master && not (is_active gens cmd.dest.instance)) ≡ false
      → IsLive gens (route_of cmd)
  unfolding route_of
  route_of-IsLive cmd gens p source target = record {
    source = is_active-Active gens cmd.handle p.handle source;
    target = λ m. rw m (is_active-Active gens cmd.dest.instance (p.target m) (ground arith));
  }

  add_route-IsRouted :
      (cmd : CommandEvent S) (e : Engine I S T)
      → IsProper cmd
      → IsRouted e
      → IsRouted (add_route cmd e)
  unfolding add_route
  add_route-IsRouted cmd e p v = elim (Bool-cases (is_active e.active_gen cmd.handle)) [
    | inr off ↦ rw off v
    | inl on ↦ rw on (elim (Bool-cases (leb e.route_capacity (length e.routes))) [
      | inl full ↦ rw full v
      | inr space ↦
          rw space
            (elim (Bool-cases
              (not cmd.dest.to_master && not (is_active e.active_gen cmd.dest.instance))) [
                | inl gone ↦ rw gone v
                | inr there ↦ rw there (record {
                  distinct = v.distinct;
                  listed = v.listed;
                  live =
                      All-append (IsLive e.active_gen) e.routes (route_of cmd ∷ []) v.live
                        (route_of-IsLive cmd e.active_gen p on there, tt);
                  room = ground (arith, length-append e.routes (route_of cmd ∷ []));
                })
              ])
    ])
  ]

  remove_route-IsRouted :
      (cmd : CommandEvent S) (e : Engine I S T) → IsRouted e → IsRouted (remove_route cmd e)
  unfolding remove_route
  remove_route-IsRouted cmd e v = record {
    distinct = v.distinct;
    listed = v.listed;
    live = All-keep (IsLive e.active_gen) (λ r. not (route_matches cmd r)) e.routes v.live;
    room =
        omega
          (arith, v.room, length-keep (λ (r : ActiveRoute). not (route_matches cmd r)) e.routes);
  }

  handle_typed :
      (t : CommandType) (cmd : CommandEvent S) (e : Engine I S T)
      → cmd.type ≡ t
      → IsProper cmd
      → IsRouted e
      → IsRouted (handle_command set_param try_enqueue cmd e)
  unfolding handle_command
  handle_typed CommandType.activate cmd e h p v = rw h (activate-IsRouted cmd.handle e p.handle v)
  handle_typed CommandType.kill cmd e h p v =
      rw h (elim (Bool-cases (is_active e.active_gen cmd.handle)) [
        | inl on ↦ rw on (release-IsRouted cmd.handle.slot EndReason.killed e v)
        | inr off ↦ rw off v
      ])
  handle_typed CommandType.set_parameter cmd e h p v =
      rw h (elim (Bool-cases (is_active e.active_gen cmd.handle)) [
        | inl on ↦
            rw on
              (record { distinct = v.distinct; listed = v.listed; live = v.live; room = v.room })
        | inr off ↦ rw off v
      ])
  handle_typed CommandType.connect cmd e h p v = rw h (add_route-IsRouted cmd e p v)
  handle_typed CommandType.disconnect cmd e h p v = rw h (remove_route-IsRouted cmd e v)

  drain_from :
      (cmds : List (CommandEvent S)) (e : Engine I S T)
      → All IsProper cmds
      → IsRouted e
      → IsRouted (drain_commands set_param try_enqueue cmds e)
  unfolding drain_commands
  drain_from [] e p v = v
  drain_from (cmd ∷ cmds) e p v =
      drain_from cmds (handle_command set_param try_enqueue cmd e) p.1
        (handle_typed cmd.type cmd e refl p.0 v)

  -- After any commands whose handles are not the null handle, on the state that init() leaves:
  -- active_list names each slot with a generation other than 0 once and no other, the source and the
  -- target of every route are active in the generation that the route names, and the routes are at
  -- most as many as init() reserved.
  pub drain_commands-IsRouted :
      (mgr : InstanceManager I S) (n capacity : ℕ) (queue : T) (cmds : List (CommandEvent S))
      → All IsProper cmds
      → IsRouted (drain_commands set_param try_enqueue cmds (init_engine mgr n capacity queue))
  drain_commands-IsRouted mgr n capacity queue cmds p =
      drain_from cmds (init_engine mgr n capacity queue) p (init-IsRouted mgr n capacity queue)

  untouched :
      (slot : ℕ) (rs : List ActiveRoute)
      → All (λ r. touches slot r ≡ false) (keep (λ r. not (touches slot r)) rs)
  untouched slot [] = tt
  untouched slot (r ∷ rs) = elim (Bool-cases (touches slot r)) [
    | inl h ↦ rw h (untouched slot rs)
    | inr h ↦ rw h (h, untouched slot rs)
  ]

  -- What the end of a voice leaves: `e` before it, `e'` after it.
  pub record Ended (h : InstanceHandle) (why : EndReason) (e e' : Engine I S T) : Type 0 where
    pub inactive : is_active e'.active_gen h ≡ false
    pub unlisted : member h.slot e'.active_list ≡ false
    pub unrouted : All (λ r. touches h.slot r ≡ false) e'.routes
    pub reported :
        e'.telemetry_queue
        ≡ try_enqueue e.telemetry_queue
            (record { slot = h.slot; generation = h.generation; reason = why })
    pub others :
        (k : InstanceHandle)
        → k.slot ≢ h.slot
        → (is_active e'.active_gen k ≡ is_active e.active_gen k)
          × (member k.slot e'.active_list ≡ member k.slot e.active_list)

  -- Killing an active voice makes its handle inactive, takes its slot off active_list and every route
  -- from or to it off the routes, reports the handle and the reason, and leaves all other slots
  -- active or not as they were.
  pub kill_lem :
      (cmd : CommandEvent S) (e : Engine I S T)
      → IsRouted e
      → cmd.type ≡ CommandType.kill
      → 0 < cmd.handle.generation
      → is_active e.active_gen cmd.handle ≡ true
      → Ended cmd.handle EndReason.killed e (handle_command set_param try_enqueue cmd e)
  unfolding handle_command release_slot is_active
  kill_lem cmd e v k p a =
      let slot = cmd.handle.slot in
      rw (k, a)
        (record {
          inactive = ground (arith, get_or-clear_self e.active_gen slot);
          unlisted = member-erase_self slot e.active_list v.distinct;
          unrouted = untouched slot e.routes;
          reported =
              ap
                (λ (g : ℕ).
                  try_enqueue e.telemetry_queue
                    (record { slot = slot; generation = g; reason = EndReason.killed }))
                (is_active-Active e.active_gen cmd.handle p a).1;
          others = λ j ne. (
            ground (
              arith,
              get_or-set_other e.active_gen slot 0 j.slot (λ q. ne (sym q)),
              length-modify e.active_gen slot (λ _. 0),
            ),
            member-erase_ne slot j.slot e.active_list (λ q. ne (sym q)),
          );
        })

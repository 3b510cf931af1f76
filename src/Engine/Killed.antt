-- ===== src/Engine/Killed.antt =====
-- src/engine.cpp: a voice that is killed does not come back under its handle.
use xrune.Base.{
  ℕ, ◌<◌, ◌≡◌, refl, subst, inl, inr, false, ◌&&◌, List, [], ◌∷◌, arith, ◌==◌, ==_iff, ltb, get_or,
  set, length, All, Bool-cases, length-modify, get_or-modify_self,
}
use xrune.Manager.{InstanceHandle}
use xrune.Engine.{
  CommandType, CommandEvent, TelemetryEvent, Engine, is_active, add_route, remove_route,
  activate_slot, release_slot, handle_command, drain_commands,
}
use xrune.Engine.Active.{get_or-set_other, get_or-clear_self}

-- Another handle than `h`, where the command is to activate one.
abbrev pub ActivatesOther : {S : Type 0} → InstanceHandle → CommandEvent S → Type 0
ActivatesOther h cmd =
    cmd.type ≡ CommandType.activate
    → (cmd.handle.slot == h.slot && cmd.handle.generation == h.generation) ≡ false

-- A slot that is given another generation, or whose generation is cleared.
is_active-set :
    (gens : List ℕ) (slot g : ℕ) (h : InstanceHandle)
    → (slot == h.slot && g == h.generation) ≡ false
    → is_active gens h ≡ false
    → is_active (set gens slot g) h ≡ false
unfolding is_active
is_active-set gens slot g h other off = elim (Bool-cases (slot == h.slot)) [
  | inl same ↦
      let here : slot ≡ h.slot = (==_iff slot h.slot).0 same in
      let now : h.slot < length gens → get_or (set gens slot g) h.slot 0 ≡ g = λ l.
        subst (λ x. get_or (set gens slot g) x 0 ≡ g) here
          (get_or-modify_self gens slot (λ _. g) 0 (omega arith)) in
      elim (Bool-cases (ltb h.slot (length gens))) [
        | inl l ↦ ground (arith, now (ground arith), length-modify gens slot (λ _. g))
        | inr l ↦ ground (arith, length-modify gens slot (λ _. g))
      ]
  | inr ne ↦ ground (
    arith,
    get_or-set_other gens slot g h.slot (λ (q : slot ≡ h.slot). ground arith),
    length-modify gens slot (λ _. g),
  )
]

module _ {I S T : Type 0} (set_param : I → ℕ → ℕ → S → I)
    (try_enqueue : T → TelemetryEvent → T) where
  by_type :
      (t : CommandType) (cmd : CommandEvent S) (e : Engine I S T) (h : InstanceHandle)
      → cmd.type ≡ t
      → 0 < h.generation
      → ActivatesOther h cmd
      → is_active e.active_gen h ≡ false
      → is_active (handle_command set_param try_enqueue cmd e).active_gen h ≡ false
  unfolding handle_command activate_slot release_slot add_route remove_route
  by_type CommandType.activate cmd e h k p other off =
      let set_off =
        is_active-set e.active_gen cmd.handle.slot cmd.handle.generation h (other k) off in
      rw k
        (elim (Bool-cases (
          ltb cmd.handle.slot (length e.active_gen)
          && get_or e.active_gen cmd.handle.slot 0 == 0)) [
            | inl free ↦ rw free set_off
            | inr taken ↦ rw taken off
          ])
  by_type CommandType.kill cmd e h k p other off =
      let set_off = is_active-set e.active_gen cmd.handle.slot 0 h (ground arith) off in
      rw k (elim (Bool-cases (is_active e.active_gen cmd.handle)) [
        | inl on ↦ rw on set_off
        | inr gone ↦ rw gone off
      ])
  by_type CommandType.set_parameter cmd e h k p other off =
      rw k (elim (Bool-cases (is_active e.active_gen cmd.handle)) [
        | inl on ↦ rw on off
        | inr gone ↦ rw gone off
      ])
  by_type CommandType.connect cmd e h k p other off = rw k (added cmd e h off)
    where
      added :
          (cmd : CommandEvent S) (e : Engine I S T) (h : InstanceHandle)
          → is_active e.active_gen h ≡ false
          → is_active (add_route cmd e).active_gen h ≡ false
      added cmd e h off = ground (arith, off)
  by_type CommandType.disconnect cmd e h k p other off = rw k off

  drain_commands-dead :
      (cmds : List (CommandEvent S)) (e : Engine I S T) (h : InstanceHandle)
      → 0 < h.generation
      → All (ActivatesOther h) cmds
      → is_active e.active_gen h ≡ false
      → is_active (drain_commands set_param try_enqueue cmds e).active_gen h ≡ false
  unfolding drain_commands
  drain_commands-dead [] e h p others off = off
  drain_commands-dead (cmd ∷ cmds) e h p others off =
      drain_commands-dead cmds (handle_command set_param try_enqueue cmd e) h p others.1
        (by_type cmd.type cmd e h refl p others.0 off)

  killed :
      (cmd : CommandEvent S) (e : Engine I S T)
      → cmd.type ≡ CommandType.kill
      → 0 < cmd.handle.generation
      → is_active (handle_command set_param try_enqueue cmd e).active_gen cmd.handle ≡ false
  unfolding handle_command release_slot is_active
  killed cmd e k p = rw k (elim (Bool-cases (is_active e.active_gen cmd.handle)) [
    | inl on ↦ rw on (ground (arith, get_or-clear_self e.active_gen cmd.handle.slot))
    | inr gone ↦ rw gone gone
  ])

  -- Once a kill command for a handle other than the null handle has been taken, in any state, the
  -- handle stays inactive through any further commands, those that activate its slot in another
  -- generation among them, as long as none of them activates the same handle.
  pub killed_for_good :
      (cmd : CommandEvent S) (cmds : List (CommandEvent S)) (e : Engine I S T)
      → cmd.type ≡ CommandType.kill
      → 0 < cmd.handle.generation
      → All (ActivatesOther cmd.handle) cmds
      → is_active (drain_commands set_param try_enqueue (cmd ∷ cmds) e).active_gen cmd.handle
        ≡ false
  unfolding drain_commands
  killed_for_good cmd cmds e k p others =
      drain_commands-dead cmds (handle_command set_param try_enqueue cmd e) cmd.handle p others
        (killed cmd e k p)

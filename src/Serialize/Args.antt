-- ===== src/Serialize/Args.antt =====
-- src/serialize.cpp: the arguments of a node as they are written describe it.
use Prim.Native.String.{String}
use xrune.Base.{
  ℕ, zero, suc, ◌+◌, ◌<◌, ◌≤◌, ◌≡◌, refl, ap, subst, ◌∙◌, Bool, true, false, Option, none, some,
  List, [], ◌∷◌, ◌++◌, map, any, get_elem?, length, All, arith,
}
use mathlib.Core.Option.{some-injective}
use xrune.Blueprint.{PortDescriptor, Node}
use xrune.Json.{Text, codes, equal, Value, number}
use xrune.Json.Strings.{IsBytes}
use xrune.Json.Numbers.{CNumbers}
use xrune.Json.Plain.{IsPlain}
use xrune.Registry.{ArgValue, number_arg, find_arg, find_named, NodeRegistry, make_node}
use xrune.Serialize.{take, port_args, config_values}
use xrune.Serialize.Load.{arg_of}
use xrune.Serialize.Saved.{AllApart, Describes, arg_names, SavedNode, Written}
use xrune.Serialize.Members.{saved_fields, as_args}

take_all : {A : Type 0} (k : ℕ) (xs : List A) → length xs ≤ k → take k xs ≡ xs
take_all zero [] h = refl
take_all zero (x ∷ xs) h = absurd (omega arith)
take_all (suc k) [] h = refl
take_all (suc k) (x ∷ xs) h = ap (λ ys. x ∷ ys) (take_all k xs (omega arith))

equal_refl : (k : Text) → equal k k ≡ true
unfolding equal
equal_refl [] = refl
equal_refl (x ∷ xs) = ground (arith, equal_refl xs)

module _ {D : Type 0} where
  abbrev config_names : List (String × D) → List Text
  config_names cs = map (λ a. codes a.0) cs

  abbrev port_names : List (PortDescriptor D) → List Text
  port_names ds = map (λ d. codes d.name) ds

  abbrev find_written : Text → List (Text × Value D) → Option (ArgValue D)
  find_written key kvs = find_arg key (as_args kvs)

  find_here :
      (k : Text) (v : D) (kvs : List (Text × Value D))
      → find_written k ((k, number v) ∷ kvs) ≡ some (number_arg v)
  unfolding find_arg arg_of
  find_here k v kvs = rw (equal_refl k) refl

  find_later :
      (k key : Text) (v : D) (kvs : List (Text × Value D))
      → equal k key ≡ false
      → find_written key ((k, number v) ∷ kvs) ≡ find_written key kvs
  unfolding find_arg arg_of
  find_later k key v kvs h = rw h refl

  -- A name is not that of a later argument.
  apart_config :
      (k : Text) (cs : List (String × D)) (more : List Text) (i : ℕ) (name : String) (v : D)
      → All (λ j. equal k j ≡ false) (config_names cs ++ more)
      → get_elem? cs i ≡ some (name, v)
      → equal k (codes name) ≡ false
  apart_config k [] more i name v h e = cc e
  apart_config k (c ∷ cs) more zero name v h e =
      subst (λ (a : String × D). equal k (codes a.0) ≡ false) (some-injective _ _ e) h.0
  apart_config k (c ∷ cs) more (suc i) name v h e = apart_config k cs more i name v h.1 e

  apart_port :
      (k : Text) (cs : List (String × D)) (ds : List (PortDescriptor D)) (i : ℕ)
      (d : PortDescriptor D)
      → All (λ j. equal k j ≡ false) (config_names cs ++ port_names ds)
      → get_elem? ds i ≡ some d
      → equal k (codes d.name) ≡ false
  apart_port k (c ∷ cs) ds i d h e = apart_port k cs ds i d h.1 e
  apart_port k [] [] i d h e = cc e
  apart_port k [] (x ∷ ds) zero d h e =
      subst (λ (a : PortDescriptor D). equal k (codes a.name) ≡ false) (some-injective _ _ e) h.0
  apart_port k [] (x ∷ ds) (suc i) d h e = apart_port k [] ds i d h.1 e

  module _ (n : Node D) where
    abbrev written : List (String × D) → ℕ → List (PortDescriptor D) → List (Text × Value D)
    written cs p ds = config_values cs ++ port_args n p ds

    find-config :
        (cs : List (String × D)) (ds : List (PortDescriptor D)) (i : ℕ) (name : String) (v : D)
        → AllApart (config_names cs ++ port_names ds)
        → get_elem? cs i ≡ some (name, v)
        → find_written (codes name) (written cs 0 ds) ≡ some (number_arg v)
    unfolding config_values
    find-config [] ds i name v h e = cc e
    find-config (c ∷ cs) ds zero name v h e =
        subst
          (λ (a : String × D).
            find_written (codes a.0) (written (c ∷ cs) 0 ds) ≡ some (number_arg a.1))
          (some-injective _ _ e) (find_here (codes c.0) c.1 (written cs 0 ds))
    find-config (c ∷ cs) ds (suc i) name v h e =
        find_later (codes c.0) (codes name) c.1 (written cs 0 ds)
          (apart_config (codes c.0) cs (port_names ds) i name v h.0 e)
        ∙ find-config cs ds i name v h.1 e

    find-port :
        (cs : List (String × D)) (p : ℕ) (ds : List (PortDescriptor D)) (i : ℕ)
        (d : PortDescriptor D)
        → AllApart (config_names cs ++ port_names ds)
        → get_elem? ds i ≡ some d
        → find_written (codes d.name) (written cs p ds)
          ≡ some (number_arg (n.param_default (p + i)))
    unfolding config_values port_args
    find-port (c ∷ cs) p ds i d h e =
        find_later (codes c.0) (codes d.name) c.1 (written cs p ds)
          (apart_port (codes c.0) cs ds i d h.0 e)
        ∙ find-port cs p ds i d h.1 e
    find-port [] p [] i d h e = cc e
    find-port [] p (x ∷ ds) zero d h e =
        let at_p : p ≡ p + 0 = omega arith in
        subst
          (λ (a : PortDescriptor D).
            find_written (codes a.name) (written [] p (x ∷ ds))
            ≡ some (number_arg (n.param_default (p + 0))))
          (some-injective _ _ e)
          (find_here (codes x.name) (n.param_default p) (port_args n (suc p) ds)
            ∙ ap (λ q. some (number_arg (n.param_default q))) at_p)
    find-port [] p (x ∷ ds) (suc i) d h e =
        let next : suc p + i ≡ p + suc i = omega arith in
        find_later (codes x.name) (codes d.name) (n.param_default p) (port_args n (suc p) ds)
          (apart_port (codes x.name) [] ds i d h.0 e)
        ∙ find-port [] (suc p) ds i d h.1 e
        ∙ ap (λ q. some (number_arg (n.param_default q))) next

    find-other :
        (cs : List (String × D)) (p : ℕ) (ds : List (PortDescriptor D)) (key : Text)
        → any (λ k. equal k key) (config_names cs ++ port_names ds) ≡ false
        → find_written key (written cs p ds) ≡ none
    unfolding config_values port_args find_arg
    find-other (c ∷ cs) p ds key h =
        find_later (codes c.0) key c.1 (written cs p ds) (ground (arith, h))
        ∙ find-other cs p ds key (ground (arith, h))
    find-other [] p [] key h = refl
    find-other [] p (x ∷ ds) key h =
        find_later (codes x.name) key (n.param_default p) (port_args n (suc p) ds)
          (ground (arith, h))
        ∙ find-other [] (suc p) ds key (ground (arith, h))

    saved_fields-written :
        length n.config_args ≤ 8 → saved_fields n ≡ written n.config_args 0 n.params
    unfolding saved_fields
    saved_fields-written few = ap (λ cs. written cs 0 n.params) (take_all 8 n.config_args few)

    written-Describes :
        AllApart (arg_names n)
        → Describes n
            (record { named = as_args (written n.config_args 0 n.params); positional = [] })
    unfolding find_named
    written-Describes apart = record {
      no_positional = refl;
      configs = λ i name v e. find-config n.config_args n.params i name v apart e;
      ports = λ p d e.
          let same : 0 + p ≡ p = omega arith in
          find-port n.config_args 0 n.params p d apart e
          ∙ ap (λ q. some (number_arg (n.param_default q))) same;
      others = λ key h. find-other n.config_args 0 n.params key h;
    }

abbrev pub PlainMember : {D : Type 0} → CNumbers D → (D → Bool) → Text × Value D → Type 0
PlainMember c nz (k, v) = IsBytes k × IsPlain c nz v

module _ {D : Type 0} (c : CNumbers D) (nz : D → Bool) (reg : NodeRegistry D) (n : Node D)
    (saved : SavedNode c nz reg n) where
  pub saved_fields-rebuilt :
      make_node reg
        (codes n.type_name)
        (record { named = as_args (saved_fields n); positional = [] })
      ≡ some n
  saved_fields-rebuilt =
      rw (saved_fields-written n saved.few) (saved.rebuilt _ (written-Describes n saved.apart))

  ports-Plain :
      (p : ℕ) (ds : List (PortDescriptor D))
      → All IsBytes (port_names ds)
      → ((i : ℕ) → i < length ds → Written c nz (n.param_default (p + i)))
      → All (PlainMember c nz) (port_args n p ds)
  unfolding port_args IsPlain
  ports-Plain p [] b h = tt
  ports-Plain p (d ∷ ds) b h =
      let at_p : p + 0 ≡ p = omega arith in
      (
        (b.0, subst (λ q. Written c nz (n.param_default q)) at_p (h 0 (omega arith))),
        ports-Plain (suc p) ds b.1 λ i l.
            let next : p + suc i ≡ suc p + i = omega arith in
            subst (λ q. Written c nz (n.param_default q)) next (h (suc i) (omega arith)),
      )

  written-Plain :
      (cs : List (String × D))
      → All IsBytes (config_names cs ++ port_names n.params)
      → All (λ (a : String × D). Written c nz a.1) cs
      → All (PlainMember c nz) (written n cs 0 n.params)
  unfolding config_values IsPlain
  written-Plain [] b w = ports-Plain 0 n.params b λ i l.
      let same : i ≡ 0 + i = omega arith in
      subst (λ q. Written c nz (n.param_default q)) same (saved.defaults_written i l)
  written-Plain (a ∷ cs) b w = ((b.0, w.0), written-Plain cs b.1 w.1)

  pub saved_fields-Plain : All (PlainMember c nz) (saved_fields n)
  saved_fields-Plain =
      rw (saved_fields-written n saved.few)
        (written-Plain n.config_args saved.names_bytes saved.configs_written)

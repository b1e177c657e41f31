-- ===== src/Main/Flags/Laws.antt =====
-- A variable behind the loop of `setEnvVarFlags`: what its own flag and the others do to it.
use csi_gcs.Base.{
  String, Bool, true, false, ◌||◌, ◌==◌, ◌≡◌, ◌≢◌, refl, sym, ◌∙◌, eq_iff, arith, Bool-cases,
  Option, some, inl, inr, List, [], ◌∷◌, Dict, lookup, if◌then◌else◌,
}
use csi_gcs.Flags.FlagSet.{Formal, bool_flag, value_flag}
use csi_gcs.Main.CommandLine.{CommandLine, set_flag, set_value, set_found, noted}
use csi_gcs.Main.Flags.{
  Variables, lift, lift_all, with_klog, env_var, sorted_insert, sorted_names, is_member,
  visit_flags,
}

abbrev pub has {ℓ} : {A : Type ℓ} → String → Dict A → Bool
has name [] = false
has name ((first, flag) ∷ flags) = (name == first) || has name flags

is_member-sorted_insert :
    (n m : String) (l : List String) → is_member n (sorted_insert m l) ≡ ((n == m) || is_member n l)
unfolding is_member sorted_insert
is_member-sorted_insert n m [] = refl
is_member-sorted_insert n m (k ∷ l) = ground (arith, is_member-sorted_insert n m l)

pub is_member-sorted_names :
    {A : Type 0} (n : String) (flags : Dict A) → is_member n (sorted_names flags) ≡ has n flags
unfolding is_member sorted_names
is_member-sorted_names n [] = refl
is_member-sorted_names n ((m, flag) ∷ flags) =
    is_member-sorted_insert n m (sorted_names flags) ∙ rw (is_member-sorted_names n flags) refl

-- A value from the environment, if there is one.
abbrev pub env_or {ℓ} : {X : Type ℓ} → String → (String → X) → X → X
env_or text read old = if text == "" then old else read text

-- A variable that one flag alone sets.
module _ {V X : Type 0} (formal : Dict (Formal V)) (getenv : String → String) (get : V → X)
    (n : String) (read : String → X)
    (here : (text : String) (c : CommandLine V) → get (set_flag formal n text c).vars ≡ read text)
    (other : (m text : String) (c : CommandLine V)
      → n ≢ m
      → get (set_flag formal m text c).vars ≡ get c.vars) where
  visit_one :
      (m text : String) (c : CommandLine V)
      → get (if (text == "") || false then c else set_flag formal m text c).vars
        ≡ (if n == m then env_or text read (get c.vars) else get c.vars)
  visit_one m text c = elim (Bool-cases (n == m)) [
    | inl same ↦
        let e : n ≡ m = (eq_iff n m).0 same in rw same (rw (sym e) (ground (arith, here text c)))
    | inr apart ↦
        let ne : n ≢ m = λ e. cc ((eq_iff n m).1 e) in rw apart (ground (arith, other m text c ne))
  ]

  joined :
      (m : String) (names : List String) (old : X)
      → (let first = if n == m then env_or (getenv (env_var m)) read old else old in
          if is_member n names then env_or (getenv (env_var n)) read first else first)
        ≡ (if (n == m) || is_member n names then env_or (getenv (env_var n)) read old else old)
  joined m names old = elim (Bool-cases (n == m)) [
    | inl same ↦ let e : n ≡ m = (eq_iff n m).0 same in rw same (rw (sym e) (ground arith))
    | inr apart ↦ rw apart refl
  ]

  pub visit_flags_lem :
      (names : List String) (c : CommandLine V)
      → get (visit_flags formal getenv [] names c).vars
        ≡ (if is_member n names then env_or (getenv (env_var n)) read (get c.vars) else get c.vars)
  unfolding visit_flags is_member
  visit_flags_lem [] c = refl
  visit_flags_lem (m ∷ names) c =
      let text = getenv (env_var m) in
      visit_flags_lem names (if (text == "") || false then c else set_flag formal m text c)
      ∙ rw (visit_one m text c) (joined m names (get c.vars))

pub vars-noted :
    {V : Type 0} (name : String) (actual : List String) (r : V × Bool)
    → (noted name actual r).vars ≡ r.0
vars-noted name actual (v, true) = refl
vars-noted name actual (v, false) = refl

-- Every flag but `n` leaves a variable alone.
module _ {V X : Type 0} (get : V → X) (n : String) where
  abbrev pub Leaves : Formal V → Type 0
  Leaves flag = (text : String) (v : V) → get (set_value flag text v).0 ≡ get v

  abbrev pub OthersLeave : Dict (Formal V) → Type 0
  OthersLeave [] = Unit
  OthersLeave ((name, flag) ∷ flags) = (n ≢ name → Leaves flag) × OthersLeave flags

  set_found_if :
      (b : Bool) (name text : String) (flag : Formal V) (x : Option (Formal V)) (c : CommandLine V)
      → set_found name text c (if b then some flag else x)
        ≡ (if b then noted name c.actual (set_value flag text c.vars) else set_found name text c x)
  set_found_if true name text flag x c = refl
  set_found_if false name text flag x c = refl

  set_flag_cons :
      (first name text : String) (flag : Formal V) (flags : Dict (Formal V)) (c : CommandLine V)
      → set_flag ((first, flag) ∷ flags) name text c ≡ (
          if first == name
          then noted name c.actual (set_value flag text c.vars)
          else set_flag flags name text c)
  unfolding set_flag lookup
  set_flag_cons first name text flag flags c = set_found_if (first == name) name text flag _ c

  pub set_flag_other :
      (flags : Dict (Formal V)) (name text : String) (c : CommandLine V)
      → OthersLeave flags
      → n ≢ name
      → get (set_flag flags name text c).vars ≡ get c.vars
  set_flag_other [] name text c h ne = unfold set_flag lookup in refl
  set_flag_other ((first, flag) ∷ flags) name text c (leave, h) ne =
      rw (set_flag_cons first name text flag flags c) (elim (Bool-cases (first == name)) [
        | inl same ↦
            rw (same, vars-noted name c.actual (set_value flag text c.vars))
              (leave (λ e. ne (e ∙ (eq_iff first name).0 same)) text c.vars)
        | inr other ↦ rw other (set_flag_other flags name text c h ne)
      ])

module _ {K X : Type 0} (get : Variables K → X)
    (apart : (k : K) (v : Variables K) → get (record v { klog = k }) ≡ get v) where
  with_klog_lem : (r : K × Bool) (v : Variables K) → get (with_klog r v).0 ≡ get v
  with_klog_lem (k, fine) v = apart k v

  lift_lem :
      (flag : Formal K) (text : String) (v : Variables K)
      → get (set_value (lift flag) text v).0 ≡ get v
  unfolding set_value lift
  lift_lem (bool_flag set) text v = apart _ v
  lift_lem (value_flag set) text v = with_klog_lem (set text v.klog) v

  pub lift_all-OthersLeave :
      (n : String) (flags : Dict (Formal K)) → OthersLeave get n (lift_all flags)
  unfolding lift_all
  lift_all-OthersLeave n [] = tt
  lift_all-OthersLeave n ((name, flag) ∷ flags) =
      (λ ne. lift_lem flag, lift_all-OthersLeave n flags)

-- ===== src/Clientset/Config/Panics.antt =====
-- clientset.go: how NewForConfigOrDie compares to NewForConfig.
use csi_gcs.Base.{◌≡◌, refl, false}
use csi_gcs.Go.{Outcome, ok, err, M, bind}
use csi_gcs.Clientset.ClientGo.{ClientGo, OrDie, returns, or_panic, then_die}
use csi_gcs.Clientset.Typed
use csi_gcs.Clientset.Typed.{RestConfig, GcsV1beta1Client}
use csi_gcs.Clientset.Config.{
  shares_limiter, with_limiter, clients_for, new_for_config, new_for_config_or_die,
}

-- A call that panics, and what follows it.
or_panic-bind :
    {S A B : Type 0} (r : Outcome A × S) (f : A → M S B) (g : A → S → OrDie B × S)
    → ((a : A) (s : S) → g a s ≡ or_panic (f a s))
    → then_die (or_panic r) g ≡ or_panic (bind r f)
unfolding or_panic then_die bind
or_panic-bind (ok a, s) f g same = same a s
or_panic-bind (err e, s) f g same = refl

returns-or_panic : {S A : Type 0} (a : A) (s : S) → (returns a, s) ≡ or_panic {A = A} (ok a, s)
unfolding or_panic
returns-or_panic a s = refl

module _ {S : Type 0} (G : ClientGo S) where
  or_die-clients_for :
      (c : RestConfig G) (s : S) → new_for_config_or_die G c s ≡ or_panic (clients_for G c s)
  unfolding new_for_config_or_die clients_for Typed.new_for_config_or_die
  or_die-clients_for c s =
      or_panic-bind (Typed.new_for_config G c s) _ _ λ gcs t.
        or_panic-bind (G.new_discovery_client_for_config c t) _ _ λ d u. returns-or_panic _ u

  -- For a config that has a limiter of its own, or no positive QPS, NewForConfigOrDie makes the same
  -- calls as NewForConfig and returns the same clients, and it panics with the error that NewForConfig
  -- returns.
  pub new_for_config_or_die-eq-or_panic :
      (c : RestConfig G) (s : S)
      → shares_limiter G c ≡ false
      → new_for_config_or_die G c s ≡ or_panic (new_for_config G c s)
  unfolding new_for_config with_limiter
  new_for_config_or_die-eq-or_panic c s own = rw own (or_die-clients_for c s)

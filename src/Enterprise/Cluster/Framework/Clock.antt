-- ===== src/Enterprise/Cluster/Framework/Clock.antt =====
-- A cluster's clock does not run backwards while it is asked, and a wait lasts as long as it is told to.
use Prim.Native.String.{String}
use cube_cos_driver.Base.{ℕ, ◌+◌, ◌≤◌, ◌≡◌, List, none, arith}
use cube_cos_driver.Enterprise.Text.{Library}
use cube_cos_driver.Enterprise.Cluster.{Client, Result, ok, failed, Action, ◌>>=◌, follow}
use cube_cos_driver.Enterprise.Cluster.Probe.{registry_probe}
use cube_cos_driver.Enterprise.Cluster.Progress.{framework_progress, framework_post_node_progress}
use cube_cos_driver.Enterprise.Cluster.Framework.{framework_status, appctl_last_error}

pub record Clock (c : Client) : Type 0 where
  pub run_time : (cmd : String) (s : c.S) → c.now s ≤ c.now (c.run cmd s).2
  pub pause_time : (n : ℕ) (s : c.S) → (c.pause n s).0 ≡ none → c.now s + n ≤ c.now (c.pause n s).1

module _ (c : Client) where
  unfoldable pub Later : {A : Type 0} → Action c.S A → Type 0
  Later m = (s : c.S) → c.now s ≤ c.now (m s).2

  pub bind-Later :
      {A B : Type 0} (m : Action c.S A) (f : A → Action c.S B)
      → Later m
      → ((a : A) → Later (f a))
      → Later (m >>= f)
  unfolding Later
  bind-Later {A} {B} m f first second s = follow-later (m s) (first s)
    where
      follow-later :
          (p : List String × Result A × c.S) → c.now s ≤ c.now p.2 → c.now s ≤ c.now (follow p f).2
      follow-later (out, ok a, t) h = omega (arith, second a t)
      follow-later (out, failed e, t) h = h

module _ (lib : Library) (c : Client) (clock : Clock c) where
  pub registry_probe-Later : (name lbip : String) → Later c (registry_probe lib c name lbip)
  unfolding registry_probe Later
  registry_probe-Later name lbip s = clock.run_time _ s

  pub framework_status-Later : (name : String) → Later c (framework_status lib c name)
  unfolding framework_status Later
  framework_status-Later name s = clock.run_time _ s

  framework_post_node_progress-Later :
      (name lbip : String) → Later c (framework_post_node_progress lib c name lbip)
  unfolding framework_post_node_progress Later
  framework_post_node_progress-Later name lbip s =
      grind (arith, clock.run_time, registry_probe-Later)

  pub framework_progress-Later : (name lbip : String) → Later c (framework_progress lib c name lbip)
  unfolding framework_progress Later
  framework_progress-Later name lbip s =
      grind (arith, clock.run_time, framework_post_node_progress-Later)

  pub appctl_last_error-Later : Later c (appctl_last_error lib c)
  unfolding appctl_last_error Later
  appctl_last_error-Later s = clock.run_time _ s

-- ===== src/Orchestrator/Inspects/Refused.antt =====
-- A start that is refused.
use Prim.Native.String.{String}
use cube_cos_driver.Base.{
  Bool, false, ◌||◌, ◌≡◌, refl, ◌∙◌, List, [], ◌∷◌, Option, none, some, arith, str_eq, eq_iff,
  if◌then◌else◌, Map,
}
use cube_cos_driver.Base.Maps.{lookup, lookup-insert, lookup-remove}
use cube_cos_driver.Orchestrator.Record.{Node}
use cube_cos_driver.Orchestrator.Inspects.{
  Inspecting, keep_value, kept, begin_all, put_back_value, put_back, refuse, start_inspect,
}

-- The machine is one of the nodes.
unfoldable pub is_of : String → List Node → Bool
is_of k [] = false
is_of k (n ∷ ns) = str_eq n.machine_id k || is_of k ns

module _ {V : Type 0} where
  keep_value-lookup :
      (k j : String) (o : Option V) (prev : Map V)
      → lookup j (keep_value k o prev) ≡ (
          if str_eq k j then (elim o [ none ↦ lookup j prev | some v ↦ some v ]) else lookup j prev)
  keep_value-lookup k j none prev = ground arith
  keep_value-lookup k j (some v) prev = lookup-insert k j v prev

  put_back_value-lookup :
      (k j : String) (o : Option V) (m : Map V)
      → lookup j (put_back_value k o m) ≡ (if str_eq k j then o else lookup j m)
  put_back_value-lookup k j none m = lookup-remove k j m
  put_back_value-lookup k j (some v) m = lookup-insert k j v m

  kept_value :
      (now : Map V) (k j : String) (prev : Map V) (o : Option V) (b : Bool)
      → lookup k now ≡ o
      → lookup j prev ≡ (if b then lookup j now else none)
      → lookup j (keep_value k o prev) ≡ (if str_eq k j || b then lookup j now else none)
  kept_value now k j prev none b e h = ground (arith, eq_iff k j)
  kept_value now k j prev (some v) b e h = ground (arith, eq_iff k j, lookup-insert k j v prev)

  kept-lookup :
      (now : Map V) (j : String) (ns : List Node)
      → lookup j (kept now ns) ≡ (if is_of j ns then lookup j now else none)
  unfolding kept is_of lookup
  kept-lookup now j [] = refl
  kept-lookup now j (n ∷ ns) =
      kept_value now n.machine_id j (kept now ns) (lookup n.machine_id now) (is_of j ns) refl
        (kept-lookup now j ns)

  put_back-lookup :
      (prev : Map V) (j : String) (ns : List Node) (m : Map V)
      → lookup j (put_back prev ns m) ≡ (if is_of j ns then lookup j prev else lookup j m)
  unfolding put_back is_of
  put_back-lookup prev j [] m = refl
  put_back-lookup prev j (n ∷ ns) m =
      put_back-lookup prev j ns (put_back_value n.machine_id (lookup n.machine_id prev) m)
      ∙ ground (
        arith,
        eq_iff n.machine_id j,
        put_back_value-lookup n.machine_id j (lookup n.machine_id prev) m,
      )

  restored :
      (now later : Map V) (j : String) (ns : List Node)
      → lookup j (put_back (kept now ns) ns later)
        ≡ (if is_of j ns then lookup j now else lookup j later)
  restored now later j ns =
      put_back-lookup (kept now ns) j ns later ∙ ground (arith, kept-lookup now j ns)

-- A start that is refused, because the boot menu could not be armed, leaves each of its machines with the
-- status and the node that it had, whatever others did in between, and every other machine with what the
-- others left.
pub start_inspect-refused :
    (ns : List Node) (labels : Map String) (why j : String) (meanwhile : Inspecting → Inspecting)
    (s : Inspecting)
    → (lookup j (start_inspect ns labels (some why) meanwhile s).1.inspects ≡ (
        if is_of j ns
        then lookup j s.inspects
        else lookup j (meanwhile (begin_all labels ns s)).inspects))
      × (lookup j (start_inspect ns labels (some why) meanwhile s).1.inspect_nodes ≡ (
          if is_of j ns
          then lookup j s.inspect_nodes
          else lookup j (meanwhile (begin_all labels ns s)).inspect_nodes))
unfolding start_inspect refuse
start_inspect-refused ns labels why j meanwhile s =
    let later = meanwhile (begin_all labels ns s) in
    (restored s.inspects later.inspects j ns, restored s.inspect_nodes later.inspect_nodes j ns)

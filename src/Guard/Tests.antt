-- ===== src/Guard/Tests.antt =====
-- The hooks on a concrete ledger.
use cost.Prelude.{◌≡◌, refl, pos, none, some, [], ◌∷◌, ◌+ℤ◌, ◌-ℤ◌, true}
use cost.Int64.{add64, sub64, wrap, to_bits, of_bits}
use cost.Text.{text}
use cost.Errors.{Context, background, context, canceled as ctx_canceled}
use cost.Currency.{usd}
use cost.Ledger.{new_ledger, reserve, reserve_loop, budget_error, fresh}
use cost.World.{World, new_world, apply}
use cost.Guard.{RequestContext, before, end_action, Ending, finished, returned, domain, operation}
use cost.Guard.Charge.{Charged, end_action-before}
use cost.Guard.Names.{operation-Undotted}

abbrev request : RequestContext
request = record { state = background; reservation = none }

abbrev world : World
world = new_world (pos 100) usd

abbrev reserved_world : World
reserved_world = record {
  ledger = record (new_ledger (pos 100) usd) { used_micros = pos 40 };
  reservations = fresh (pos 40) ∷ [];
}

before_admits :
    before true (pos 40) request world
    ≡ (none, (record request { reservation = some 0 }, reserved_world))
unfolding before apply reserve reserve_loop budget_error new_ledger add64 sub64 wrap to_bits of_bits
    ◌+ℤ◌ ◌-ℤ◌
before_admits = refl

abbrev ending : Ending
ending = finished (returned (some (pos 25))) (some (text "llm.chat")) 7

-- The request is canceled by the time that the action ends.
abbrev gone : Context
gone = context (some ctx_canceled)

end_action-before_example :
    Charged
      (pos 25)
      world
      (end_action (pos 40) (record { state = gone; reservation = some 0 }) ending reserved_world)
end_action-before_example =
    end_action-before true (pos 40) request (record request { reservation = some 0 }) world
      reserved_world ending gone before_admits

ping_no_dot : (domain (text "ping") ≡ text "action") × (operation (text "ping") ≡ text "ping")
ping_no_dot = operation-Undotted (text "ping") (refl, (refl, (refl, (refl, tt))))

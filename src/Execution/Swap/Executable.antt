-- ===== src/Execution/Swap/Executable.antt =====
-- What `check_swap_envelope` lets through: exactly the swaps that meet the requirement.
use cryptokorr.Common.{
  ℕ, ◌<◌, Text, codes, text_eq, text_eq_iff, to_lower, or_else, ◌≡◌, sym, subst, ◌⊎◌, ◌↔◌, true,
  not, Option, some, [], arith,
}
use cryptokorr.Config.Assets.{decimals_for_swap_asset, parse_amount}
use cryptokorr.Contracts.Dispatch.{DispatchSwap}
use cryptokorr.Execution.Swap.Envelope.{
  zerox_native_eth, CheckedSwap, passed, require, require_some, truthy, check_provider,
  missing_fields, check_missing, check_deadline, check_amount, check_value, check_swap_envelope,
}
use cryptokorr.Execution.Swap.Requirement.{IsFresh, IsExecutable, IsComplete}
use cryptokorr.Execution.Swap.Steps.{
  require-eq-passed, require_some-eq-passed, truthy_iff, check_provider_sound,
  check_missing-eq-passed, missing_fields_iff, check_deadline_sound, check_deadline_complete,
  check_amount_iff, check_value_sound, is_defined_iff, inverted, truthy-Present, or_else-Present,
  supported_nonempty, check_provider_complete, check_value_complete, bound, check_missing-nil,
}

passed-injective : {A : Type 0} {a b : A} → passed a ≡ passed b → a ≡ b
passed-injective h = cc

-- The parts that the checks establish, for the result that they lead to.
IsExecutable-checks :
    (date_parse : Text → Option ℕ) (d : DispatchSwap) (now input output n v : ℕ)
    → ((p : Text) × (d.route.route_provider ≡ some p)
        × ((to_lower p ≡ codes "zerox") ⊎ (to_lower p ≡ codes "0x")))
    → IsComplete d.route
    → (not (text_eq (to_lower (or_else d.route.source_token_address [])) zerox_native_eth) ≡ true)
    → decimals_for_swap_asset d.input_asset ≡ some input
    → decimals_for_swap_asset d.output_asset ≡ some output
    → IsFresh date_parse d.route.deadline now
    → (parse_amount d.input_amount input ≡ some n) × (0 < n)
    → (parse_amount (or_else d.route.value []) 18 ≡ some 0) × (v ≡ 0)
    → IsExecutable date_parse d now (record {
      input_token = or_else d.route.source_token_address [];
      spender = or_else d.route.spender [];
      swap_target = or_else d.route.swap_target_contract [];
      swap_calldata = or_else d.route.calldata [];
      swap_value = v;
      input_amount_base_units = n;
      input_decimals = input;
      output_decimals = output;
    })
IsExecutable-checks date_parse d now input output n v provider c foreign ins outs fresh amount
      value =
    record {
      provider = provider;
      target = truthy_iff _ c.target;
      calldata = truthy_iff _ c.calldata;
      spender = truthy_iff _ c.spender;
      source = truthy_iff _ c.source;
      destination = (_, truthy_iff _ c.destination);
      minimum_output = (_, truthy_iff _ c.minimum_output);
      not_native = ground (
        arith,
        text_eq_iff (to_lower (or_else d.route.source_token_address [])) zerox_native_eth,
      );
      input_asset = ins;
      output_asset = outs;
      fresh = fresh;
      amount = amount.0;
      amount_positive = amount.1;
      value = (or_else d.route.value [], is_defined_iff _ c.value, value.0);
      no_value = value.1;
    }

check_swap_envelope_sound :
    (date_parse : Text → Option ℕ) (d : DispatchSwap) (now : ℕ) (c : CheckedSwap)
    → check_swap_envelope date_parse d now ≡ passed c
    → IsExecutable date_parse d now c
unfolding check_swap_envelope
check_swap_envelope_sound date_parse d now c h =
    inverted (check_provider d.route) _ h λ u1 provider h1.
      inverted (check_missing (missing_fields d.route)) _ h1 λ u2 complete h2.
        inverted
          (require
            (not (text_eq (to_lower (or_else d.route.source_token_address [])) zerox_native_eth)) _)
          _ h2
          λ u3 foreign h3.
            inverted (require_some (decimals_for_swap_asset d.input_asset) _) _ h3 λ input ins h4.
              inverted (require_some (decimals_for_swap_asset d.output_asset) _) _ h4
                λ output outs h5.
                  inverted (check_deadline date_parse d.route.deadline now) _ h5 λ u6 fresh h6.
                    inverted (check_amount d input) _ h6 λ n amount h7.
                      inverted (check_value d.route) _ h7 λ v value h8.
                        subst (IsExecutable date_parse d now) (passed-injective h8) (
                          IsExecutable-checks date_parse d now input output n v
                            (check_provider_sound d.route provider)
                            ((missing_fields_iff d.route).0 (check_missing-eq-passed _ complete))
                            (require-eq-passed _ _ foreign) (require_some-eq-passed _ _ ins)
                            (require_some-eq-passed _ _ outs)
                            (check_deadline_sound date_parse d.route.deadline now fresh)
                            ((check_amount_iff d input n).0 amount)
                            (check_value_sound d.route v value))

module _ (date_parse : Text → Option ℕ) (d : DispatchSwap) (now : ℕ) (c : CheckedSwap)
    (x : IsExecutable date_parse d now c) where
  IsExecutable-IsComplete : IsComplete d.route
  IsExecutable-IsComplete = record {
    target = truthy-Present _ _ x.target;
    calldata = truthy-Present _ _ x.calldata;
    spender = truthy-Present _ _ x.spender;
    source = truthy-Present _ _ x.source;
    destination = truthy-Present _ _ x.destination.1;
    value = ground arith;
    minimum_output = truthy-Present _ _ x.minimum_output.1;
  }

  check_swap_envelope_complete : check_swap_envelope date_parse d now ≡ passed c
  unfolding check_swap_envelope truthy
  check_swap_envelope_complete =
      let (p, provided, known) = x.provider in
      let (v, valued, no_value) = x.value in
      let source = or_else-Present _ _ x.source.0 in
      bound (check_provider d.route) _ tt
        (check_provider_complete d.route p (rw provided (supported_nonempty p known)) provided
          known)
        (bound (check_missing (missing_fields d.route)) _ tt
          (rw ((missing_fields_iff d.route).1 IsExecutable-IsComplete) check_missing-nil)
          (bound
            (require
              (not (text_eq (to_lower (or_else d.route.source_token_address [])) zerox_native_eth))
              _)
            _ tt
            (rw source
              (ground (arith, text_eq_iff (to_lower c.input_token) zerox_native_eth, x.not_native)))
            (bound (require_some (decimals_for_swap_asset d.input_asset) _) _ c.input_decimals
              (rw x.input_asset)
              (bound (require_some (decimals_for_swap_asset d.output_asset) _) _ c.output_decimals
                (rw x.output_asset)
                (bound (check_deadline date_parse d.route.deadline now) _ tt
                  (check_deadline_complete date_parse d.route.deadline now x.fresh)
                  (bound (check_amount d c.input_decimals) _ c.input_amount_base_units
                    ((check_amount_iff d c.input_decimals c.input_amount_base_units).1
                      (x.amount, x.amount_positive))
                    (bound (check_value d.route) _ 0
                      (check_value_complete d.route (rw (or_else-Present _ _ valued) no_value))
                      (λ i. passed (record {
                        input_token = source i;
                        spender = or_else-Present _ _ x.spender.0 i;
                        swap_target = or_else-Present _ _ x.target.0 i;
                        swap_calldata = or_else-Present _ _ x.calldata.0 i;
                        swap_value = sym x.no_value i;
                        input_amount_base_units = c.input_amount_base_units;
                        input_decimals = c.input_decimals;
                        output_decimals = c.output_decimals;
                      })))))))))

-- `check_swap_envelope` passes with `c` exactly when the swap is executable as `c`: its provider is
-- supported, every execution field is there, the input is not native ETH, both assets have known
-- decimals, the deadline (if there is one) is a date in the future, the amount in base units is
-- positive, and no value is attached.
pub check_swap_envelope_iff :
    (date_parse : Text → Option ℕ) (d : DispatchSwap) (now : ℕ) (c : CheckedSwap)
    → (check_swap_envelope date_parse d now ≡ passed c) ↔ IsExecutable date_parse d now c
check_swap_envelope_iff date_parse d now c =
    (check_swap_envelope_sound date_parse d now c, check_swap_envelope_complete date_parse d now c)

-- ===== src/SolutionBuilder/Quantities.antt =====
-- The scale and the quantities of app/solution_builder/bom_service.py cover the devices.
use makkays_chatbot.Prelude.{
  ℕ, ◌+◌, ◌-◌, ◌*◌, ◌/◌, ◌%◌, ◌≤◌, ◌<◌, String, ◌≡◌, ◌⊎◌, ◌↔◌, inl, inr, true, not, ◌&&◌, Option,
  ltb, min, arith,
}
use makkays_chatbot.SolutionBuilder.Bom.{
  calculated, SolutionBuilderSettings, is_enterprise, classify, switch_quantity, ups_quantity,
  half_even,
}

-- A switch has 24 ports and a power supply carries 10 switches: the switches have a port for each
-- device, one switch less would not, unless it is the only one; and likewise for the supplies.
pub switch_quantity_lem :
    (device_count : ℕ)
    → let switches = switch_quantity device_count in
      let supplies = ups_quantity switches in
      (device_count ≤ 24 * switches)
      × ((switches ≡ 1) ⊎ (24 * (switches - 1) < device_count))
      × (switches ≤ 10 * supplies)
      × ((supplies ≡ 1) ⊎ (10 * (supplies - 1) < switches))
unfolding switch_quantity ups_quantity
switch_quantity_lem device_count = ground arith

-- A price is calculated exactly for a project that is no enterprise use case and stays below both
-- thresholds.
pub classify_calculated :
    (settings : SolutionBuilderSettings) (device_count : ℕ) (use_case : Option String)
    → ((classify settings device_count use_case).pricing_mode ≡ calculated) ↔ (
        (not (is_enterprise use_case)
          && ltb device_count
              (min settings.large_device_threshold settings.enterprise_device_threshold))
        ≡ true)
unfolding classify
classify_calculated settings device_count use_case = ground arith

half_even_cases :
    (n d : ℕ)
    → ((half_even n d ≡ n / d) × (2 * (n % d) ≤ d))
      ⊎ ((half_even n d ≡ n / d + 1) × (d ≤ 2 * (n % d)))
unfolding half_even
half_even_cases n d = ground arith

-- Rounding is off by half a unit at most.
pub half_even_bounds :
    (n d : ℕ)
    → 0 < d
    → (2 * n ≤ 2 * (half_even n d * d) + d) × (2 * (half_even n d * d) ≤ 2 * n + d)
half_even_bounds n d positive = elim (half_even_cases n d) [
  | inl (e, small) ↦ rw e (omega arith, omega arith)
  | inr (e, big) ↦ rw e (omega arith, omega arith)
]

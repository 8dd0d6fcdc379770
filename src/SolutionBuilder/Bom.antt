-- ===== src/SolutionBuilder/Bom.antt =====
-- app/solution_builder/bom_service.py: the scale of a project, the quantities of a bill of materials,
-- and the bill itself.
--
-- The catalogue (app/rag/repository.py, app/quotes/repository.py) is an interface of three queries.
-- A price is a decimal that is not negative, a subtotal a number of cents. The code multiplies decimals
-- within 28 digits and divides device counts as floats, exact below 2 ^ 53; the model is exact.
use makkays_chatbot.Prelude.{
  ℕ, ◌+◌, ◌-◌, ◌*◌, ◌/◌, ◌%◌, ◌^◌, max, String, List, [], ◌∷◌, Bool, false, Option, none, some,
  contains, ltb, leb, eqb, ◌==◌, if◌then◌else◌,
}
use makkays_chatbot.Shared.{Uuid}
use makkays_chatbot.Session.Schemas.{Decimal}

pub data Size : Type 0 where
  small medium large enterprise : Size

pub data PricingMode : Type 0 where
  calculated call_for_pricing : PricingMode

-- `ProjectScale.reason` by what it quotes.
pub data Reason : Type 0 where
  enterprise_use_case : Reason
  count_at_least count_below : ℕ → Reason

pub record ProjectScale : Type 0 where
  pub size : Size
  pub pricing_mode : PricingMode
  pub reason : Reason

-- SolutionBuilderSettings
pub record SolutionBuilderSettings : Type 0 where
  pub large_device_threshold : ℕ
  pub enterprise_device_threshold : ℕ

abbrev pub default_settings : SolutionBuilderSettings
default_settings = record { large_device_threshold = 500; enterprise_device_threshold = 1000 }

-- _MEDIUM_DEVICE_THRESHOLD
abbrev pub medium_device_threshold : ℕ
medium_device_threshold = 100

-- _ENTERPRISE_USE_CASES
abbrev pub enterprise_use_cases : List String
enterprise_use_cases = "data_center" ∷ "enterprise" ∷ "isp" ∷ "carrier" ∷ "government" ∷ []

abbrev pub is_enterprise : Option String → Bool
is_enterprise none = false
is_enterprise (some use_case) = contains enterprise_use_cases use_case

-- ScaleClassifier.classify
unfoldable pub classify : SolutionBuilderSettings → ℕ → Option String → ProjectScale
classify settings device_count use_case =
    if is_enterprise use_case
    then record { size = enterprise; pricing_mode = call_for_pricing; reason = enterprise_use_case }
    else if leb settings.enterprise_device_threshold device_count
    then record {
      size = enterprise;
      pricing_mode = call_for_pricing;
      reason = count_at_least settings.enterprise_device_threshold;
    }
    else if leb settings.large_device_threshold device_count
    then record {
      size = large;
      pricing_mode = call_for_pricing;
      reason = count_at_least settings.large_device_threshold;
    }
    else if leb medium_device_threshold device_count
    then record {
      size = medium;
      pricing_mode = calculated;
      reason = count_at_least medium_device_threshold;
    }
    else record {
      size = small;
      pricing_mode = calculated;
      reason = count_below medium_device_threshold;
    }

-- math.ceil(n / d) for a positive d
abbrev pub ceil_div : ℕ → ℕ → ℕ
ceil_div n d = (n + (d - 1)) / d

unfoldable pub switch_quantity : ℕ → ℕ
switch_quantity device_count = if leb 1 device_count then max 1 (ceil_div device_count 24) else 1

unfoldable pub ups_quantity : ℕ → ℕ
ups_quantity switches = max 1 (ceil_div switches 10)

-- category_quantities
unfoldable pub category_quantities : ℕ → List (String × ℕ)
unfolding switch_quantity ups_quantity
category_quantities device_count =
    let switches = switch_quantity device_count in
    ("switch", switches) ∷ ("ups", ups_quantity switches) ∷ []

-- The nearest even or the only nearest number to `n / d`, as `ROUND_HALF_EVEN` rounds.
unfoldable pub half_even : ℕ → ℕ → ℕ
half_even n d =
    let q = n / d in
    let twice = 2 * (n % d) in
    if ltb twice d then q else if ltb d twice then q + 1 else if eqb (q % 2) 0 then q else q + 1

-- Decimal.quantize(Decimal("0.01")) in cents, of the decimal `coefficient / 10 ^ scale`.
unfoldable pub quantize : ℕ → ℕ → ℕ
unfolding half_even
quantize coefficient scale = half_even (coefficient * 100) (10 ^ scale)

-- A stated capacity: a figure and its unit.
pub record Capacity : Type 0 where
  pub min_value : Decimal
  pub unit : String

pub record WizardRequirements : Type 0 where
  pub use_case : Option String
  pub device_count : Option ℕ
  pub project_size : Option ProjectScale
  pub location : Option String
  pub brand_preference : Option String
  pub capacity : Option Capacity

pub record BomLineItem : Type 0 where
  pub category : String
  pub product_id : Uuid
  pub product_name : String
  pub quantity : ℕ
  pub unit_price : Decimal
  pub subtotal : ℕ

pub record Solution : Type 0 where
  pub use_case : Option String
  pub line_items : List BomLineItem
  pub total_estimate : ℕ

-- find_by_filters, get_by_ids (the product's name) and get_prices
pub record Catalog : Type 0 where
  pub find_by_filters : String → Option Capacity → List Uuid
  pub get_name : Uuid → Option String
  pub get_price : Uuid → Option Decimal

-- _CATALOG_CATEGORY_ALIASES.get(category, (category,))
abbrev pub aliases : String → List String
aliases category =
    if category == "switch"
    then "switch" ∷ []
    else if category == "ups"
    then "ups" ∷ "UPS Solutions" ∷ []
    else category ∷ []

abbrev pub or_zero : Option ℕ → ℕ
or_zero none = 0
or_zero (some n) = n

-- Only the power supply is sized by the stated capacity.
abbrev pub capacity_for : String → Option Capacity → Option Capacity
capacity_for category capacity = if category == "ups" then capacity else none

abbrev pub first_found : List Uuid → Option Uuid → Option Uuid
first_found [] later = later
first_found (id ∷ ids) later = some id

module _ (catalog : Catalog) where
  -- The loop over the aliases: the first product of the first alias that finds one.
  unfoldable pub find_product : List String → Option Capacity → Option Uuid
  find_product [] capacity = none
  find_product (category ∷ categories) capacity =
      first_found (catalog.find_by_filters category capacity) (find_product categories capacity)

  abbrev pub item_of : String → ℕ → Uuid → Option String → Option Decimal → Option BomLineItem
  item_of category quantity id (some name) (some price) = some (record {
    category = category;
    product_id = id;
    product_name = name;
    quantity = quantity;
    unit_price = price;
    subtotal = quantize (price.coefficient * quantity) price.scale;
  })
  item_of category quantity id (some name) none = none
  item_of category quantity id none price = none

  abbrev pub priced : String → ℕ → Option Uuid → Option BomLineItem
  priced category quantity none = none
  priced category quantity (some id) =
      item_of category quantity id (catalog.get_name id) (catalog.get_price id)

  -- _line_item_for_category
  unfoldable pub line_item_for_category : String → ℕ → Option Capacity → Option BomLineItem
  unfolding find_product quantize
  line_item_for_category category quantity capacity =
      priced category quantity (find_product (aliases category) capacity)

  abbrev pub cons_item : Option BomLineItem → List BomLineItem → List BomLineItem
  cons_item none items = items
  cons_item (some item) items = item ∷ items

  -- The loop over the categories: one without a priced product is left out.
  unfoldable pub line_items_for : List (String × ℕ) → Option Capacity → List BomLineItem
  unfolding line_item_for_category
  line_items_for [] capacity = []
  line_items_for ((category, quantity) ∷ rest) capacity =
      cons_item (line_item_for_category category quantity (capacity_for category capacity))
        (line_items_for rest capacity)

  abbrev pub sum_subtotals : List BomLineItem → ℕ
  sum_subtotals [] = 0
  sum_subtotals (item ∷ items) = item.subtotal + sum_subtotals items

  abbrev pub solution_of : Option String → List BomLineItem → Option Solution
  solution_of use_case [] = none
  solution_of use_case (item ∷ items) = some (record {
    use_case = use_case;
    line_items = item ∷ items;
    total_estimate = sum_subtotals (item ∷ items);
  })

  -- BOMService.build; `none` is `InsufficientProductDataError`.
  unfoldable pub build : WizardRequirements → Option Solution
  unfolding category_quantities line_items_for
  build requirements = solution_of requirements.use_case (
      line_items_for (category_quantities (or_zero requirements.device_count))
        requirements.capacity)

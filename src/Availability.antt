-- ===== src/Availability.antt =====
-- app/availability: the stock of the products, from the local table or from the ERP stub, and the tool.
--
-- Rows have the database's checks: neither number is negative. Its foreign key to the products and the
-- range of its integers are left out. A query returns the rows in the order of
-- the table. The text of a number and that of the database's error are parameters; the time stamps and
-- the provider's name, which is `local` or `erp` by its settings, are left out and a `Provider`.
pub mod Laws
mod Tests
use makkays_chatbot.Prelude.{
  ℕ, String, List, [], ◌∷◌, Bool, true, false, ◌&&◌, not, Option, none, some, any, keep, ltb,
  contains, concat, Dict, lookup, insert, ◌==◌, if◌then◌else◌,
}
use makkays_chatbot.Shared.{Uuid}
use makkays_chatbot.Tools.Schemas.{
  Attempt, returned, raised, other, ToolExecutionResult, ExecutionContext, SessionContext,
  get_product_ids,
}

pub record ProductAvailability : Type 0 where
  pub tenant_id : Uuid
  pub product_id : Uuid
  pub quantity : ℕ
  pub estimated_delivery_days : Option ℕ
  pub source : String

-- AvailabilitySource
pub data AvailabilitySource : Type 0 where
  local_db mock erp : AvailabilitySource

pub record AvailabilityResult : Type 0 where
  pub product_id : Uuid
  pub in_stock : Bool
  pub quantity : ℕ
  pub estimated_delivery_days : Option ℕ
  pub source : AvailabilitySource
  pub note : Option String

-- An `int`.
pub data ℤ : Type 0 where
  pos : ℕ → ℤ
  negsuc : ℕ → ℤ

abbrev pub is_row : Uuid → Uuid → ProductAvailability → Bool
is_row product tenant row = (row.product_id == product) && (row.tenant_id == tenant)

-- AvailabilityRepository.get
unfoldable pub get : Uuid → Uuid → List ProductAvailability → Option ProductAvailability
get product tenant [] = none
get product tenant (row ∷ rows) =
    let later = get product tenant rows in if is_row product tenant row then some row else later

-- AvailabilityRepository.get_batch
unfoldable pub get_batch : List Uuid → Uuid → List ProductAvailability → List ProductAvailability
get_batch ids tenant rows =
    keep (λ row. (row.tenant_id == tenant) && contains ids row.product_id) rows

-- The row of a product is written over, or added.
abbrev pub put : ProductAvailability → List ProductAvailability → List ProductAvailability
put new [] = new ∷ []
put new (row ∷ rows) =
    let later = row ∷ put new rows in
    if is_row new.product_id new.tenant_id row then new ∷ rows else later

module _ (database_error : String) where
  abbrev pub checked_days : Option ℤ → Attempt (Option ℕ)
  checked_days none = returned none
  checked_days (some (pos n)) = returned (some n)
  checked_days (some (negsuc n)) = raised (other database_error)

  abbrev pub put_checked :
      Uuid
      → Uuid
      → ℕ
      → String
      → Attempt (Option ℕ)
      → List ProductAvailability
      → Attempt ProductAvailability × List ProductAvailability
  put_checked tenant product quantity source (raised error) rows = (raised error, rows)
  put_checked tenant product quantity source (returned days) rows =
      let row : ProductAvailability = record {
        tenant_id = tenant;
        product_id = product;
        quantity = quantity;
        estimated_delivery_days = days;
        source = source;
      } in
      (returned row, put row rows)

  -- AvailabilityRepository.upsert
  unfoldable pub upsert :
      Uuid
      → Uuid
      → ℤ
      → Option ℤ
      → String
      → List ProductAvailability
      → Attempt ProductAvailability × List ProductAvailability
  upsert tenant product (negsuc n) days source rows = (raised (other "quantity must be >= 0"), rows)
  upsert tenant product (pos quantity) days source rows =
      put_checked tenant product quantity source (checked_days days) rows

abbrev pub result_of : Uuid → Option ProductAvailability → AvailabilityResult
result_of product none = record {
  product_id = product;
  in_stock = true;
  quantity = 99;
  estimated_delivery_days = none;
  source = mock;
  note = some "No availability data - using default mock values";
}
result_of product (some row) = record {
  product_id = row.product_id;
  in_stock = ltb 0 row.quantity;
  quantity = row.quantity;
  estimated_delivery_days = row.estimated_delivery_days;
  source = local_db;
  note = none;
}

-- LocalAvailabilityService.check
unfoldable pub check : List ProductAvailability → Uuid → Uuid → AvailabilityResult
unfolding get
check rows product tenant = result_of product (get product tenant rows)

-- {row.product_id: row for row in rows}
abbrev pub index_rows :
    List ProductAvailability → Dict ProductAvailability → Dict ProductAvailability
index_rows [] index = index
index_rows (row ∷ rows) index = index_rows rows (insert row.product_id row index)

abbrev pub results_of : Dict ProductAvailability → List Uuid → List AvailabilityResult
results_of index [] = []
results_of index (product ∷ products) =
    result_of product (lookup product index) ∷ results_of index products

-- LocalAvailabilityService.check_batch
unfoldable pub check_batch : List ProductAvailability → List Uuid → Uuid → List AvailabilityResult
unfolding get_batch insert lookup
check_batch rows products tenant =
    results_of (index_rows (get_batch products tenant rows) []) products

-- get_availability_service
pub data Provider : Type 0 where
  local_provider erp_provider : Provider

-- The batch of the provider; `none` is the `NotImplementedError` of ERPAvailabilityService.
abbrev pub checked_by :
    Provider → List ProductAvailability → List Uuid → Uuid → Option (List AvailabilityResult)
checked_by local_provider rows products tenant = some (check_batch rows products tenant)
checked_by erp_provider rows products tenant = none

abbrev pub not_implemented : String
not_implemented = concat (
    "ERPAvailabilityService is not implemented. "
    ∷ "Set AVAILABILITY_PROVIDER=local or implement the ERP client." ∷ [])

module _ (number_text : ℕ → String) where
  abbrev pub delivery : Option ℕ → String
  delivery none = ""
  delivery (some days) = concat (" Estimated delivery: " ∷ number_text days ∷ " days." ∷ [])

  abbrev pub note_text : Option String → String
  note_text none = ""
  note_text (some note) = if note == "" then "" else concat (" " ∷ note ∷ "." ∷ [])

  -- _summarize_result
  unfoldable pub summarize_result : AvailabilityResult → String
  summarize_result result = concat (
      "- Product "
      ∷ result.product_id
      ∷ ": "
      ∷ (if result.in_stock then "in stock" else "out of stock")
      ∷ ", quantity "
      ∷ number_text result.quantity
      ∷ "."
      ∷ delivery result.estimated_delivery_days
      ∷ note_text result.note
      ∷ [])

  -- The lines after the first one, each after a line break.
  abbrev pub result_lines : List AvailabilityResult → String
  result_lines [] = ""
  result_lines (result ∷ results) =
      concat ("\n" ∷ summarize_result result ∷ result_lines results ∷ [])

  -- summarize_availability
  unfoldable pub summarize_availability : List AvailabilityResult → String
  unfolding summarize_result
  summarize_availability [] = "No products were available to check."
  summarize_availability (result ∷ results) =
      concat ("Availability check:" ∷ result_lines (result ∷ results) ∷ [])

  abbrev pub availability_outcome : Bool → String → Option String → ToolExecutionResult
  availability_outcome success summary error = record {
    step = "check_availability";
    success = success;
    result_summary = summary;
    error = error;
    product_ids = none;
  }

  abbrev pub batch_result : Option (List AvailabilityResult) → ToolExecutionResult
  batch_result (some results) = availability_outcome true (summarize_availability results) none
  batch_result none =
      availability_outcome false "Availability check is temporarily unavailable."
        (some not_implemented)

  abbrev pub for_products :
      Provider → List ProductAvailability → Uuid → Option (List Uuid) → ToolExecutionResult
  for_products provider rows tenant (some (product ∷ products)) =
      batch_result (checked_by provider rows (product ∷ products) tenant)
  for_products provider rows tenant found =
      availability_outcome false "No product was identified to check availability for."
        (some "No retrieved product IDs")

  -- check_availability_tool
  unfoldable pub check_availability_tool :
      Provider → List ProductAvailability → SessionContext → ExecutionContext → ToolExecutionResult
  unfolding check_batch summarize_availability get_product_ids
  check_availability_tool provider rows session context =
      for_products provider rows session.tenant_id (get_product_ids context)

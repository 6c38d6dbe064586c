-- ===== src/Mocks/Ihms/Products.antt =====
-- The products of docker/mock-upstreams/ihms/app.py.
use ihms_oms.Prelude.{
  false, ℕ, String, Bool, true, Option, none, some, List, [], ◌∷◌, Dict, lookup, string_eq,
}
use ihms_oms.Session.Models.{Price}

pub record Product : Type 0 where
  pub product_id : String
  pub sku : String
  pub name : String
  pub description : String
  pub category : String
  pub unit_price : Price
  pub currency : String
  pub sellable : Bool

abbrev catalog_entry : String → String → String → String → ℕ → Product
catalog_entry product_id sku name category cents = record {
  product_id = product_id;
  sku = sku;
  name = name;
  description = name;
  category = category;
  unit_price = record { negative = false; digits = cents; scale = 2 };
  currency = "USD";
  sellable = true;
}

abbrev pub product_catalog : List Product
product_catalog =
    catalog_entry "prod-001" "MOUSE-001" "Wireless Mouse" "Peripherals" 2999
    ∷ catalog_entry "prod-002" "KEYBOARD-002" "Mechanical Keyboard" "Peripherals" 8999
    ∷ catalog_entry "prod-003" "HUB-003" "USB-C Hub" "Accessories" 4999
    ∷ catalog_entry "prod-widget-001" "WIDGET-001" "Standard Widget" "Widgets" 1999
    ∷ catalog_entry "prod-gadget-002" "GADGET-002" "Premium Gadget" "Gadgets" 4999
    ∷ []

names_of : List Product → Dict String String
names_of [] = []
names_of (p ∷ ps) = (p.product_id, p.name) ∷ names_of ps

-- `d.get(k, default)`
abbrev pub or_default {ℓ} : {A : Type ℓ} → A → Option A → A
or_default d none = d
or_default d (some a) = a

pub name_of : String → String
unfolding names_of
name_of product_id = or_default product_id (lookup product_id (names_of product_catalog))

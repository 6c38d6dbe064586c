-- ===== src/Checkout/Settings.antt =====
-- src/settings.py. The timeouts of the HTTP pools, which are only handed on to httpx, and the reading
-- of the environment are left out.
use ihms_oms.Prelude.{String, Bool, true, false, List, [], ◌∷◌}
use ihms_oms.Catalog.Live.{CatalogMode, auto_mode}

pub data CatalogSource : Type 0 where
  from_json from_ihms : CatalogSource

pub record Settings : Type 0 where
  pub ihms_base_url : String
  pub ecops_base_url : String
  pub ecops_bearer_token : String
  pub catalog_source : CatalogSource
  pub catalog_path : String
  pub ihms_products_metadata_path : String
  pub ecops_mapping_path : String
  pub catalog_fallback_to_json : Bool
  pub ihms_catalog_mode : CatalogMode
  pub cors_origins : List String
  pub ihms_fulfill_optional : Bool
  pub log_level : String
  pub log_json : Bool

-- `Settings()` in an empty environment.
abbrev pub default_settings : Settings
default_settings = record {
  ihms_base_url = "http://localhost:8080";
  ecops_base_url = "http://localhost:8002";
  ecops_bearer_token = "";
  catalog_source = from_ihms;
  catalog_path = "catalog/products.json";
  ihms_products_metadata_path = "catalog/ihms-products.json";
  ecops_mapping_path = "catalog/ecops-mapping.json";
  catalog_fallback_to_json = false;
  ihms_catalog_mode = auto_mode;
  cors_origins =
      "http://localhost:5173" ∷ "http://127.0.0.1:5173" ∷ "http://localhost:5180"
      ∷ "http://127.0.0.1:5180" ∷ [];
  ihms_fulfill_optional = true;
  log_level = "INFO";
  log_json = true;
}

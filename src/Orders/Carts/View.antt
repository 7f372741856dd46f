-- ===== src/Orders/Carts/View.antt =====
-- The view of a cart with its prices: `toCartDto` and the lines of
-- apps/api/src/modules/orders/services/cart.service.ts.
use savemycontrollers.Catalog.{
  Service, ServiceOption, find_options_by_ids, find_services_by_ids, get_device_model_name,
  get_device_variant_name,
}
use savemycontrollers.Configurator.Data.{ConfigurationPrice}
use savemycontrollers.Configurator.Validate.{validate}
use savemycontrollers.Orders.Data.{Cart, CartItem, OrderStore, items_of}
use savemycontrollers.Prelude.{ℕ, String, Uuid, Instant, Option, List, ◌+◌, ◌-◌, map, sum_by}
use savemycontrollers.Orders.Carts.Data.{name_or_empty}

pub record CartLine : Type 0 where
  pub id : Uuid
  pub device_model_name : String
  pub device_variant_name : String
  pub service_names : List String
  pub option_names : List String
  pub unit_price_minor : ℕ
  pub discount_minor : ℕ
  pub tax_amount_minor : ℕ
  pub total_minor : ℕ
  pub reported_issue : Option String

pub record CartView : Type 0 where
  pub id : Uuid
  pub items : List CartLine
  pub subtotal_minor : ℕ
  pub discount_minor : ℕ
  pub tax_minor : ℕ
  pub total_minor : ℕ

abbrev pub priced : OrderStore → Option Uuid → Instant → CartItem → ConfigurationPrice
priced s company now item = (validate s.configuration item.configuration company now).price

abbrev pub cart_line : OrderStore → Option Uuid → Instant → CartItem → CartLine
cart_line s company now item =
    let price = priced s company now item in
    let catalog = s.configuration.catalog in
    record {
      id = item.id;
      device_model_name =
          name_or_empty (get_device_model_name catalog item.configuration.device_model_id);
      device_variant_name = name_or_empty (
          get_device_variant_name catalog item.configuration.device_model_id
            item.configuration.device_variant_id);
      service_names =
          map (λ (v : Service). v.name)
            (find_services_by_ids catalog item.configuration.service_ids);
      option_names =
          map (λ (o : ServiceOption). o.name)
            (find_options_by_ids catalog item.configuration.option_ids);
      unit_price_minor = price.subtotal_minor;
      discount_minor = price.discount_minor;
      tax_amount_minor = price.tax_minor;
      total_minor = price.total_minor;
      reported_issue = item.reported_issue;
    }

unfoldable pub cart_view : OrderStore → Instant → Cart → CartView
cart_view s now c =
    let items = items_of c.id s.cart_items in
    let subtotal = sum_by (λ t. (priced s c.company_id now t).subtotal_minor) items in
    let discount = sum_by (λ t. (priced s c.company_id now t).discount_minor) items in
    let tax = sum_by (λ t. (priced s c.company_id now t).tax_minor) items in
    record {
      id = c.id;
      items = map (cart_line s c.company_id now) items;
      subtotal_minor = subtotal;
      discount_minor = discount;
      tax_minor = tax;
      total_minor = (subtotal - discount) + tax;
    }

-- ===== src/Navigation.antt =====
-- frontend/src/components/layout/navigation.ts: the links of the sidebar and what a path requires.
-- The icons are left out.
pub mod Laws
use mathlib.Core.Option
use lapor_kos.Prelude.{
  String, Bool, true, false, List, [], ◌∷◌, map, Option, none, some, any, find, filter, is_under,
  if◌then◌else◌,
}
use lapor_kos.Authorization.Capabilities.{
  Capability, capability, audit_read, calendar_read, complaint_read, contract_read, expense_read,
  invoice_read, payment_read, report_read, room_read, rule_read, tenant_read, visitor_permit_read,
}

pub record NavigationItem : Type 0 where
  pub name : String
  pub href : String
  pub capability : Option Capability

pub record NavigationSection : Type 0 where
  pub section : String
  pub items : List NavigationItem

abbrev item : String → String → Option Capability → NavigationItem
item name href capability = record { name = name; href = href; capability = capability }

abbrev pub tenant_navigation : List NavigationSection
tenant_navigation =
    record {
      section = "PORTAL PENGHUNI";
      items =
          item "Dashboard Saya" "/" none
          ∷ item "Invoice Saya" "/invoices" none
          ∷ item "Bayar" "/payments" none
          ∷ item "Izin Tamu" "/guest-permits" none
          ∷ item "Peraturan Kos" "/rules" none
          ∷ [];
    }
    ∷ record {
      section = "LAINNYA";
      items =
          item "Notifikasi" "/notifications" none
          ∷ item "Komplain Fasilitas" "/complaints" none
          ∷ item "Pengaturan Akun" "/settings" none
          ∷ [];
    }
    ∷ []

abbrev pub staff_navigation : List NavigationSection
staff_navigation =
    record {
      section = "MENU UTAMA";
      items =
          item "Dashboard" "/" none
          ∷ item "Manajemen Kamar" "/rooms" (some (capability room_read))
          ∷ item "Penghuni & Kontrak" "/tenants" (some (capability tenant_read))
          ∷ [];
    }
    ∷ record {
      section = "KEUANGAN";
      items =
          item "Laporan & Keuangan" "/reports" (some (capability report_read))
          ∷ item "Biaya & Pengeluaran" "/expenses" (some (capability expense_read))
          ∷ item "Invoice & Tagihan" "/invoices" (some (capability invoice_read))
          ∷ item "Pembayaran" "/payments" (some (capability payment_read))
          ∷ [];
    }
    ∷ record {
      section = "OPERASIONAL";
      items =
          item "Izin Tamu & Pengunjung" "/guest-permits" (some (capability visitor_permit_read))
          ∷ item "Peraturan Kos" "/rules" (some (capability rule_read))
          ∷ item "Kalender" "/calendar" (some (capability calendar_read))
          ∷ item "Komplain" "/complaints" (some (capability complaint_read))
          ∷ [];
    }
    ∷ record {
      section = "ADMINISTRASI";
      items =
          item "Notifikasi & Delivery" "/notifications" none
          ∷ item "Audit & Keamanan" "/audit" (some (capability audit_read))
          ∷ item "Properti & Tim" "/properties" none
          ∷ item "Pengaturan Akun" "/settings" none
          ∷ [];
    }
    ∷ []

-- `!item.capability || can(item.capability)`; no capability is the empty text.
abbrev pub allows : (Capability → Bool) → Option Capability → Bool
allows can none = true
allows can (some c) = can c

abbrev pub is_allowed : (Capability → Bool) → NavigationItem → Bool
is_allowed can i = allows can i.capability

abbrev keep_allowed : (Capability → Bool) → NavigationSection → NavigationSection
keep_allowed can s = record s { items = filter (is_allowed can) s.items }

abbrev has_items : NavigationSection → Bool
has_items s = elim s.items [ [] ↦ false | _ ∷ _ ↦ true ]

unfoldable pub get_navigation : Bool → (Capability → Bool) → List NavigationSection
get_navigation is_tenant can =
    if is_tenant
    then tenant_navigation
    else filter has_items (map (keep_allowed can) staff_navigation)

abbrev pub staff_path_capabilities : List (String × Capability)
staff_path_capabilities =
    ("/rooms", capability room_read)
    ∷ ("/tenants", capability tenant_read)
    ∷ ("/contracts", capability contract_read)
    ∷ ("/invoices", capability invoice_read)
    ∷ ("/payments", capability payment_read)
    ∷ ("/reports", capability report_read)
    ∷ ("/expenses", capability expense_read)
    ∷ ("/audit", capability audit_read)
    ∷ ("/rules", capability rule_read)
    ∷ ("/calendar", capability calendar_read)
    ∷ ("/complaints", capability complaint_read)
    ∷ ("/guest-permits", capability visitor_permit_read)
    ∷ []

unfoldable pub get_required_capability : String → Option Capability
get_required_capability pathname =
    Option.map (λ entry. entry.1)
      (find (λ entry. is_under entry.0 pathname) staff_path_capabilities)

-- The list in `isStaffOnlyPath`.
abbrev pub staff_only_paths : List String
staff_only_paths =
    "/rooms" ∷ "/tenants" ∷ "/reports" ∷ "/expenses" ∷ "/audit" ∷ "/calendar" ∷ "/properties" ∷ []

unfoldable pub is_staff_only_path : String → Bool
is_staff_only_path pathname = any (λ path. is_under path pathname) staff_only_paths

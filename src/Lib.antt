-- ===== src/Lib.antt =====
-- Verification of the site of Lapor Kos, a manager of boarding houses: frontend/src.
--
-- The site is a Next.js application. A visitor first passes the middleware, which reads the token's
-- cookie. The session provider loads the signed-in user; the property provider loads the properties
-- that the user is a member of and keeps one of them active, by its id in the session storage. The
-- role in the active property and the explicit permissions say what the user can do; the shell of
-- the dashboard shows links by them and sends the user away from pages that need more. Every call
-- of the server goes through the API client, which adds the token and the active property to the
-- request, shares the GET requests in flight, and ends the session when the server refuses it.
-- Forms and formatters stand beside these.
--
-- Files and sources (paths below frontend/src/):
--   Authorization, Authorization/Capabilities: features/authorization/permissions.ts.
--     `CAPABILITIES` is the data type CapabilityKey with `capability` for the texts,
--     `ROLE_CAPABILITIES` is role_capabilities, `hasCapability` is has_capability.
--   Access: features/authorization/useAuthorization.ts and Can.tsx.
--   Browser: the storages, the cookies and the location, which lib/auth.ts and lib/api.ts use.
--   Auth: lib/auth.ts. `setToken`, `getToken`, `removeToken`, `isAuthenticated` take the browser
--     and return it.
--   Session, Session/Types: features/session/SessionProvider.tsx and types.ts. The cells of
--     `useState` are a record; `reload` is split at its `await`.
--   Properties/Types, Properties/Storage, Properties/Provider: features/properties/types.ts,
--     storage.ts and PropertyProvider.tsx. `refreshProperties` is refresh_signed_out without a
--     user; with one it is refresh_start, and then refresh_loaded or refresh_failed when the
--     server has answered. `switchProperty` is switch_property. A history is any sequence of
--     these.
--   Api/Options, Api/Request, Api/InFlight: lib/api.ts. `buildHeaders` is build_headers, `request`
--     is request, `readApiResponse` is read_api_response; `apiFetch` is fetch, and the callback
--     that it leaves behind is clear.
--   Middleware: middleware.ts.
--   Navigation: components/layout/navigation.ts.
--   Shell: components/layout/DashboardShell.tsx.
--   Invitations/Chars, Phone, Email, Form: features/tenant-invitations/form.ts.
--     Invitations/Activation: app/(auth)/activate-invitation/page.tsx.
--   Calls and its children: features/*/api.ts, a data type of the calls of each feature, and a
--     function from it to the endpoint and the options of `apiFetch`.
--   Api/Action: a handler that awaits calls of the server, with do blocks; the server is any
--     function of the calls that were made before.
--   Forms/Preview, Forms/Transfer: features/room-transfers/components/RoomTransferModal.tsx. The
--     effect is run_effect, its timer start_fetch, an answer answered; `handleSubmit` is
--     handle_submit.
--   Forms/Settlement, Forms/Inspection: features/checkouts/components. Forms/Permit:
--     features/guest-permits/components/VisitorPermitRequestModal.tsx. Forms: what they share.
--   Notifications: features/notifications/components, the bell and the preferences.
--   Contracts: features/contracts/types.ts and app/(dashboard)/contracts/[id]/page.tsx.
--   Tenants, Tenants/Shown: app/(dashboard)/tenants/page.tsx. `enhancedTenants` is
--     enhanced_tenants, `filteredAndSortedTenants` is filtered_and_sorted_tenants.
--   Tenants/Profile: app/(dashboard)/tenants/[id]/page.tsx. Its children: Money, the amounts of the
--     forms; Figures and Activities, what is shown; Page, what is kept and loaded; Submit, the
--     handlers.
--   Phones: the formatters of telephone numbers of rooms/page.tsx, rooms/add/page.tsx and
--     tenants/[id]/page.tsx below app/(dashboard)/.
--   Dashboard, Dashboard/Figures, Dashboard/Revenue: app/(dashboard)/page.tsx. `getPastMonthsData`
--     is get_past_months_data.
--   SignIn: app/(auth)/login/page.tsx and register/page.tsx. SignIn/Recovery:
--     forgot-password/page.tsx, verify-otp/page.tsx and reset-password/page.tsx there; a page is
--     opened by open_verify or open_reset, and a form is submitted by submit_forgot, submit_otp or
--     submit_reset.
--   Invitations/Page, with Places: app/(dashboard)/tenants/invitations/page.tsx.
--   Settings, Calendar, Audit: settings/page.tsx, calendar/page.tsx and audit/page.tsx below
--     app/(dashboard)/. A submission of the settings is split at its `await`; a load of the log is
--     a query that stays pending until its answer.
--   Expenses/Actions, Invoices/Detail, Payments/Receipt: what is done to an expense, the opening of
--     an invoice, and that of a receipt, with the reconciliation.
--   Payments, Invoices, Expenses, Complaints, Reports, Rules: the pages of these names below
--     app/(dashboard)/. A handler takes the page and the calls before, and returns those after.
--   Rooms and its children: app/(dashboard)/rooms/page.tsx. Rooms/Shown is
--     `filteredAndSortedRooms`, with a filter for each choice and an insertion sort for the
--     platform's stable `sort`; Rooms/Stats is `stats`; Rooms/Pages holds `totalPages`,
--     `paginatedRooms` and the buttons, a history being any sequence of them over a list that
--     stays as it is; Rooms/Csv is a line of the export; Rooms/Dialog holds the facilities, the
--     price and the submission of the dialog, and Rooms/Assignment its second step, the tenant,
--     and the removal of a room.
--   Rooms/Wizard, with Submission and Costs: app/(dashboard)/rooms/add/page.tsx. `validateStep` is
--     step_errors, the keys and messages that it sets, and validate_step; `handleNext` and
--     `handlePrev` are handle_next and handle_prev. A history starts on the first step and edits
--     on each step what that step shows.
--   Format and its children: features/*/format.ts, and the status types of features/*/types.ts.
--   Prelude and its children: shared names, Boolean tests, lemmas on lists and texts, decimal
--     numbers, and `switch` on texts.
--   Examples: concrete runs.
-- The child `Laws` of a module holds what is shown of it.
--
-- Parameters: the `URL` class (the text of a URL from an endpoint, a base and search parameters),
-- `encodeURIComponent`, `JSON.stringify`, the text of a `URLSearchParams`, `localeCompare`, the
-- reading and printing of dates (`Date`, `Intl`), the check of an email by the library of the
-- schemas, `toUpperCase` and `toLowerCase`. The answers of the server are arguments of the
-- functions that receive them.
--
-- Conventions. A nullable or optional field is an Option; a falsy text is none or the empty text.
-- `Headers` and the storages are functions from names. React runs an updater of a state with the
-- latest state, so an operation is a function of the state, and a callback sees the state of its
-- last render as the current one. Texts of the form are lists of the codes of their units. The
-- matcher of the email tries the places of the dot in turn, as the regular expression backtracks.
--
-- Bounds and fuel. Numbers are ℕ, prices included, and ℤ of Prelude/Integers where the code lets
-- them fall below 0. `show` prints with fuel 21, enough for every number below 10 ^ 21, where
-- JavaScript begins to write an exponent. The numbers that are read from texts in Tenants/Profile
-- become infinite from 2 ^ 1024 - 2 ^ 970 on, as a double does. Everything else is structural.
--
-- Not modelled: the markup and the styling of the components, the pages below app/ that are not
-- named above, the loading of lists again after a submission, the formatters that only pass a
-- number or a date to `Intl`, and the server under backend/.
mod Prelude
pub mod Authorization
pub mod Browser
pub mod Properties
pub mod Auth
pub mod Session
pub mod Access
pub mod Middleware
pub mod Navigation
pub mod Shell
pub mod Invitations
pub mod Phones
pub mod Format
pub mod Settings
pub mod SignIn
pub mod Calendar
pub mod Audit
pub mod Reports
pub mod Rules
pub mod Rooms
pub mod Tenants
pub mod Dashboard
pub mod Forms
pub mod Contracts
pub mod Payments
pub mod Expenses
pub mod Notifications
pub mod Complaints
pub mod Invoices
mod Examples
pub mod Api
pub mod Calls

-- ===== src/Lib.antt =====
-- libfred, the registry library of FRED (https://fred.nic.cz), modelled in part.
--
-- The library is a set of operations over the tables of a registry. An operation is an object with
-- setters and `exec`, which checks its arguments, asks the database, and changes rows or throws. Here
-- the tables that an operation reads and writes are lists of records, an operation is a function of
-- them and of the current time, and an exception is the `err` of `Result`. A query is written out as
-- the filter, the join or the order that it names, with the treatment of NULL by SQL.
--
-- Parts, their files and the code that they model (paths from the root of the repository):
--
-- Domain/Name: `is_rfc1123_compliant_host_name` and `DomainName` of
--   src/libfred/registrable_object/domain/domain_name.cc; `rem_trailing_dot` of
--   src/libfred/zone/zone.cc. Name/Syntax has the grammar of host names, Name/RoundTrip and
--   Name/Compliant reading and printing, Name/Subdomains the removal of top labels.
-- Domain/Checker, Domain/Validator: the classes derived from `DomainNameChecker`, their factory and
--   `DomainNameValidator` of the same file. Domain/Config: the configuration of the checkers of a zone
--   in the database, of the same file.
-- Domain/Zone: `get_zone` and `find_zone_in_fqdn` of src/libfred/zone/zone.cc. Zone/Search says when a
--   candidate passes, Zone/Longest what is found, Zone/Found that it is a row of the table.
-- Domain/CheckDomain: src/libfred/registrable_object/domain/check_domain.cc, which uses all of the above
--   and the blacklist.
-- Domain/Blacklist: src/libfred/registrable_object/domain/create_domain_name_blacklist_id.cc.
-- ObjectState: src/libfred/object_state. StateIds is get_object_state_id_map.cc, Create is
--   create_object_state_request_id.cc, Cancel is cancel_object_state_request_id.cc, Clear is
--   clear_object_state_request_id.cc and clear_admin_object_state_request_id.cc. Changes says what a
--   cancellation does to the rows, for the two.
-- Contact: src/libfred/registrable_object/contact/merge_contact_selection.cc. Tables has what the
--   queries read, Filters the filters, Merge the loop over them.
-- Registrar/Certification: src/libfred/registrar/certification. Create, Update and Delete are the files
--   with these words in their names, Days says which days a certification covers, Created, Prolong and
--   Accept what the operations do to them, Commands what a sequence of them does.
-- Registrar/ZoneAccess: src/libfred/registrar/zone_access. Change is the addition, the update and the
--   deletion, History is get_zone_access_history.cc and registrar_zone_access_history.cc, with a
--   `std::map` as the list of its entries; a period that ends before it starts has no place in it.
-- Registrar/Group: src/libfred/registrar/group, with the memberships in Group/Membership; Group/Distinct
--   is about the names of groups, Group/Ended about when a membership is created and what ends one.
-- Registrar/Periods: periods that have no day in common, for certifications and zone access.
-- PublicRequest: src/libfred/public_request. Update is update_public_request.cc for one request, with
--   its columns in Update/Columns; UpdateAll its loop over the opened requests of an object, with the
--   search of get_opened_public_request.cc; Create is create_public_request.cc and
--   create_public_request_auth.cc; EmailFormat is
--   src/libfred/contact_verification/django_email_format.hh. The types of requests, which derive from
--   PublicRequestTypeIface, are a parameter (TypeIface).
-- Util/Factory: src/util/factory.hh and src/util/factory_check.hh. Util/ParamQuery:
--   src/util/db/param_query_composition.cc. Util/FlagSet: src/util/flagset.hh.
-- Boost: the interface of the string algorithms and the regular expressions that the code calls.
-- Common: names of the libraries, lists, texts and results that all parts share. Common/Int has whole
--   numbers, Common/Operations the operations on tables that may throw.
--
-- Conventions. A `std::string` is the list of its bytes. Times are natural numbers, counted from a
-- moment before all of them; an optional end of an interval is `none` where the column is NULL. An id
-- that the code draws from a sequence comes from a counter in the tables. Loops over containers are
-- structural recursions on lists. An update of a request calls itself for the requests that it
-- cancels, and the loop over the opened requests of an object has no bound: the two take fuel. Fuel
-- above the number of requests plus one is enough for the recursion, and above the number of requests
-- for the loop where it ends (PublicRequest/Terminates, PublicRequest/Loop). Sizes are compared as
-- natural numbers: the lengths at hand are far below the bounds of the machine's types; a subtraction
-- that the code does on an `int` is written with the test that comes before it.
--
-- Not modelled: PostgreSQL, Boost and the C locale, of which the functions that the code calls are
-- parameters with the behaviour that their documentation gives as named laws; each set of laws is met
-- by a plain function in the tests. Transactions and locks have no effect on one operation by itself.
-- The texts of exceptions and of the log are left out. The operations on contacts, domains, keysets,
-- nssets, poll messages and the notifier are not modelled; of registrars and public requests, what the
-- list above names is.
pub mod Common
pub mod Boost
pub mod Util
pub mod Domain
pub mod ObjectState
pub mod Contact
pub mod Registrar
pub mod PublicRequest

-- ===== src/Lib.antt =====
-- A verification library for introspector, the tool that imports the resources of an AWS
-- organization into a database and keeps a log of what changed between imports.
--
-- An import (introspector/aws) reads every service of every account and stores the responses as raw
-- imports below a path. The mapper (introspector/mapper.py) turns them into resources and attributes
-- by the transforms, with a uri from introspector/aws/uri.py and the organization's nodes from
-- introspector/aws/map.py. introspector/delta compares what was mapped with what is stored, writes
-- the difference, and logs it as delta rows.
--
-- The files and the code that they model:
--   Store, Store/Rows, Store/Tables: the tables of introspector/models and the operations of the
--     database session that the code calls. A table is a list of rows with the next id; `db.add`
--     takes effect at once, a failed constraint is an error, and a query gives rows in the order of
--     insertion. Columns that no modelled function reads and
--     the bounds on the lengths of texts are left out; the configuration of an import is an argument
--     of what reads it. The `change_details` of a delta are
--     constructors of a data type with the document's entries as fields.
--   Store/Responses: `raw_resources` of introspector/models/raw_import.py.
--   Delta/Attrs: introspector/delta/attrs.py, all of it. `sync_attrs` is the loop over the new
--     attributes followed by the loop over the rows that are left.
--   Store/Removal: rows with distinct ids, which the deletes rely on.
--   Delta/Lookup: `Resource.get_by_uri` and `get_by_attrs` of introspector/models/resource.py.
--   Delta/Resource, Delta/Prefix: `apply_resource`, `apply_mapped_attrs` and `map_resource_prefix` of
--     introspector/delta/resource.py.
--   Delta/Relations: `map_resource_relations`, `_apply_relation` and `map_relation_deletes` of the same
--     file.
--   Delta/Deletes: `map_resource_deletes` and `_delete_relation` of the same file, the cascades of
--     the models included.
--   Delta/Partial: introspector/delta/partial.py, all of it.
--   Delta/Report: introspector/delta/report.py, with `ImportJob.latest` and `mark_complete` of
--     introspector/models/import_job.py. A date is a number.
--   Mapper: the class Mapper of introspector/mapper.py. Eval has `value_from_spec`, Attrs the attributes,
--     Specs the reading of a specification and the keyword arguments of a uri function, Resources
--     `map_resources` and `map_partials`, Relations `map_relations`. A specification is a JSON value,
--     as it is after loading. A generator is the list of what it yields: where it raises, what it
--     had yielded is not kept.
--   MapperFns: introspector/aws/mapper_fns.py.
--   Spec: the import specification and its gates in introspector/aws/svc.py.
--   Services: the rest of that file. Direct is the import of a service within one session of the
--     database, Pool the tasks of the process pool and what a worker makes of them; Accounts has
--     `account_paths_for_import` and the sessions of introspector/aws/__init__.py. A task commits what it
--     writes or nothing, and the pool runs the tasks in some order, which is that of the exceptions.
--   Importer: the loops over the services and their regions in introspector/aws/importer.py, and
--     introspector/aws/region.py.
--   Organization: the graph of the organization and the provider account of an import, in
--     introspector/aws/__init__.py.
--   Fetch: the proxies of introspector/aws/fetch.py, for a client with a state of its own.
--   Account: introspector/account.py. Each SQL statement is a function, with its joins and the foreign
--     keys of migrations/introspector that it may violate. Views is `refresh_views` of
--     introspector/bootstrap_db.py.
--   Paths: `PathStack` of introspector/__init__.py.
--   Writer: `ImportWriter` of the same file.
--   Division: `AWSDivisionURI` of introspector/aws/map.py.
--   Uri: introspector/aws/uri.py, all of it. The closure that looks a security group up by its name is
--     the constructor `security_group`, with the arguments that it would search with.
--   Value: JSON values. Prelude, Outcome: the Python operations that the code calls (split, join,
--     lower, dict, the LIKE of SQL) and its exceptions as values.
--   Tests: small imports at which the library's statements are run.
--
-- Parameters: `json_diff` of introspector/delta/__init__.py, which calls the DeepDiff package, is an
-- argument of the functions that use it, and nothing is assumed of it. Python's text of numbers, lists
-- and objects in an f-string is the argument `repr`, or a field of `fmt` beside PostgreSQL's text of a
-- JSON list or object. The package jmespath is the argument `search`, Python's `json.loads` the argument
-- `loads`. The functions of introspector/delta take the mapper's results by an argument of the mapper's
-- interface (`map_resources`, `map_partials`, `map_relations`). The package botocore is the record
-- `Botocore` of sessions and the record `Client` of calls, and what it knows of endpoints and whether a
-- region answers is `RegionCache`; the folder of the views and what the database makes of a query are
-- arguments of `refresh_views`.
--
-- Fuel: `map_resources` and `map_relations` call themselves for the subresources of a response. Their
-- fuel is the room on Python's stack, and they are a `RecursionError` without; more than the depth of
-- the response is enough. So it is for the units of the organization in `build_graph`. `map_resources_or`
-- and `map_relations_or` have in place of the `RecursionError` what they are given. Every other loop is
-- over a list or a JSON value; the second call of `ClientProxy.list`, which does not retry, is written
-- out, and a whole pagination is one call of `Client`.
--
-- Bounds of the model: a version of a specification is an integer; a list of two or more items that
-- are not texts is not sorted; only ASCII letters are lowered; the key of a tag is a text. A
-- specification without services, which `parse_import_spec` never gives, selects nothing in the queries.
--
-- Not modelled: the functions of the services that name the calls of AWS and shape the responses, and
-- the service of aws/organizations.py, which are parameters of the import; `map_import` as a whole,
-- whose parts are modelled; `_patch_client` of the proxies, which writes into a botocore client; the
-- functions that compute with floating-point numbers (`string_to_float`, `_lambda_alias_relations`).
-- The tables aws_* of the migrations, which only the SQL of the views writes, are not tables of the
-- model. The command line, the CIS checks, the SQL and the transforms are not modelled.
pub mod Prelude
pub mod Outcome
pub mod Value
pub mod Store
pub mod Spec
pub mod Paths
pub mod Division
pub mod Uri
pub mod MapperFns
pub mod Delta
pub mod Mapper
pub mod Account
pub mod Fetch
pub mod Importer
pub mod Organization
pub mod Services
pub mod Writer
pub mod Tests

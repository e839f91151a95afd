-- ===== src/Tests.antt =====
-- Small imports, a database and an organization, at which the library's statements are run.
mod Fixtures
mod Account
mod Services
mod Fetch
mod Organization
mod Attrs
mod Deletes
mod Division
mod Resource
mod Gates
mod Uri
mod Responses
mod Relations
mod Partial
mod Report
mod MapperFns
mod Mapper
mod Prefix

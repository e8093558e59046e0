-- ===== src/Graphql.antt =====
-- controlplane/graphql/: the limits on a query, and the resolvers of the schema.
pub mod Document
pub mod Walk
pub mod Termination
pub mod Growth
pub mod Depth
pub mod Doubling
pub mod Site
pub mod Queries
pub mod Mutations
pub mod ReleaseValues
pub mod InstalledValues
pub mod ReleaseMutations
pub mod Steps
pub mod Tables
pub mod Operations
pub mod Cancelling
pub mod TargetRows
pub mod ReleaseRows
pub mod Lookups
pub mod Ownership
pub mod DiagnosticIsolation
pub mod ReleaseIsolation
pub mod Isolation
pub mod Values
pub mod Scope
mod Tests
mod SiteTests

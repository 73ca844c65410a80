-- ===== src/Resolver.antt =====
-- Parts of package resolver: the delegation cache (resolver/delegationcache.go), the names that
-- are sent to servers (resolver/privacy.go), and validation (resolver/validate.go).
pub mod Delegations
pub mod Privacy
pub mod Validation
pub mod Replies

-- ===== src/Tests.antt =====
-- Examples: what the other modules state, at concrete inputs.
mod UriTop
mod Chunked
mod Filter
mod Engine
mod Response
mod Pacer
mod Counts
mod Requests
mod Connection
mod Profile
mod Sequence
mod Target
mod AccessLog
mod Command

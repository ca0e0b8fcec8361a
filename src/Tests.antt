-- ===== src/Tests.antt =====
-- Runs of the models on concrete inputs, and the theorems at such inputs.
mod Registry
mod Symbols
mod Dicts
mod Memory
mod Words
mod Futures
mod Supervision
mod Deque
mod Handlers
mod Lexer
mod Mailboxes
mod Handles
mod FutureTables
mod Parsing

-- ===== src/Tests.antt =====
-- Each theorem at concrete inputs, and runs of the code.
mod Numbers
mod Words
mod Rates
mod Tokens
mod Pool
mod World
mod Operations
mod Admin

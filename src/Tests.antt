-- ===== src/Tests.antt =====
-- Tests by evaluation, and the theorems at concrete inputs.
mod Wac
mod Ldp
mod Server
mod Idp
mod Security
mod Turtle
mod Tenancy
mod Auth
mod Options
mod Storage
mod Invite

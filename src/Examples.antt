-- ===== src/Examples.antt =====
-- Concrete runs of the models: inputs at which the theorems apply.
mod Sorting
mod Scheduling
mod Conditions
mod Times
mod Policies
mod Issuance
mod Requests
mod Usages
mod Queue
mod NextKeys
mod Ready
mod Issue
